-- ===== src/Products/Offers/Final.antt =====
-- An offer that is resolved stays as it is.
use iuh_exchange_be.Base.{◌≡◌, true, false, some, List, ◌==◌, All}
use iuh_exchange_be.Products.Offers.Document.{is_pending, Offer, Env, Market, find_offer}
use iuh_exchange_be.Products.Offers.Reads.{Request, run_requests}
use iuh_exchange_be.Products.Offers.Kept.{Agrees, Kept}
use iuh_exchange_be.Products.Offers.Steps.{run-Kept}

-- An offer that is not pending stays as it is: whatever requests follow, of any users at any times,
-- the table has the offer under its id as it was. The offer is the only row with its id, and new
-- offers get other ids.
pub resolved_stays :
    (o : Offer) (rs : List (Env × Request)) (m : Market)
    → is_pending o.status ≡ false
    → find_offer o.id m.offers ≡ some o
    → All (λ x. (x.id == o.id) ≡ true → x ≡ o) m.offers
    → All (λ r. (r.0.new_id == o.id) ≡ false) rs
    → find_offer o.id (run_requests rs m).offers ≡ some o
unfolding Kept Agrees
resolved_stays o rs m resolved found all new = (run-Kept o resolved rs m new (found, all)).0
