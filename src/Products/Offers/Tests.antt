-- ===== src/Products/Offers/Tests.antt =====
-- Runs of the offers on concrete data.
use iuh_exchange_be.Base.{
  ℕ, ◌≡◌, refl, true, false, some, none, List, [], ◌∷◌, if◌then◌else◌, arith,
}
use iuh_exchange_be.Base.Int.{pos}
use iuh_exchange_be.Base.Result.{ok, err, broker_down}
use iuh_exchange_be.Orders.Model.{sell}
use iuh_exchange_be.Products.Saga.{Product, available, is_available, find_product}
use iuh_exchange_be.Products.Offers.Document.{
  Offer, pending, accepted, by_user, is_pending, is_due, Proposal, accept, counter, Env, Market,
  find_offer,
}
use iuh_exchange_be.Products.Offers.Handlers.{resolve_offer}
use iuh_exchange_be.Products.Offers.Reads.{
  Request, to_create, to_resolve, to_withdraw, to_list_product, run_requests, get_offer_checkout,
}
use iuh_exchange_be.Products.Offers.Final.{resolved_stays}
use iuh_exchange_be.Products.Offers.Single.{IsSingle, one_pending}
use iuh_exchange_be.Products.Offers.Accepted.{has_pending, accept_closes}

abbrev lamp : Product
lamp = record {
  id = 7;
  seller_id = 2;
  listing_type = sell;
  allow_offers = true;
  status = available;
  reserved_order_id = none;
  reserved_by = none;
  reserved_at = none;
  reservation_expires_at = none;
}

abbrev bid : Offer
bid = record {
  id = 1;
  product_id = 7;
  buyer_id = 3;
  seller_id = 2;
  for_trade = false;
  amount = some 50;
  trade_item_title = "";
  trade_item_description = "";
  message = "";
  status = pending;
  counter_amount = none;
  counter_message = "";
  expires_at = 1000;
  resolved_at = none;
  resolved_by = none;
}

abbrev rival : Offer
rival = record bid { id = 2; buyer_id = 4 }

abbrev sold_bid : Offer
sold_bid = record bid { status = accepted; resolved_at = some 5; resolved_by = some (by_user 2) }

abbrev proposal : Proposal
proposal = record {
  for_trade = false;
  amount = some (pos 60);
  trade_item_title = "";
  trade_item_description = "";
  message = "Today?";
  expires_in_hours = none;
}

abbrev at_time : ℕ → Env
at_time now = record { now = now; new_id = 9; broker = λ event. true }

abbrev market : Market
market = record { products = lamp ∷ []; offers = bid ∷ rival ∷ []; published = [] }

abbrev requests : List (Env × Request)
requests =
    (at_time 10, to_create 3 7 proposal)
    ∷ (at_time 20, to_resolve 2 9 (counter (some (pos 70)) ""))
    ∷ (at_time 30, to_withdraw 4 2)
    ∷ (at_time 40, to_list_product 2 7 0 20)
    ∷ []

bid_found : find_offer 1 market.offers ≡ some bid
unfolding find_offer
bid_found = refl

bid_waits : is_pending bid.status ≡ true
unfolding is_pending
bid_waits = refl

bid_early : is_due (at_time 10) bid ≡ false
unfolding is_due
bid_early = refl

lamp_found : find_product 7 market.products ≡ some lamp
unfolding find_product
lamp_found = refl

lamp_free : is_available lamp.status ≡ true
unfolding is_available
lamp_free = refl

accept_closes_example :
    let after = resolve_offer (at_time 10) 2 1 accept market in
    let a = record bid {
      status = accepted;
      resolved_at = some 10;
      resolved_by = some (by_user 2);
    } in
    (find_offer 1 after.1.offers ≡ some a)
    × (has_pending 7 after.1.offers ≡ false)
    × (after.0 ≡ (if true then ok a else err broker_down))
    × (get_offer_checkout 3 1 after.1
        ≡ ok (record {
          offer_id = 1;
          product_id = 7;
          seller_id = 2;
          buyer_id = 3;
          price = some 50;
          listing_type = sell;
          trade_item_title = "";
          trade_item_description = "";
        }))
accept_closes_example =
    accept_closes (at_time 10) 2 1 bid lamp market bid_found bid_waits bid_early refl lamp_found
      lamp_free

no_offers : IsSingle (record market { offers = [] })
no_offers p b = omega arith

one_pending_example : IsSingle (run_requests requests (record market { offers = [] }))
one_pending_example = one_pending requests (record market { offers = [] }) no_offers

resolved : is_pending sold_bid.status ≡ false
unfolding is_pending
resolved = refl

sold_found : find_offer 1 (sold_bid ∷ rival ∷ []) ≡ some sold_bid
unfolding find_offer
sold_found = refl

resolved_stays_example :
    find_offer 1 (run_requests requests (record market { offers = sold_bid ∷ rival ∷ [] })).offers
    ≡ some sold_bid
resolved_stays_example =
    resolved_stays sold_bid requests (record market { offers = sold_bid ∷ rival ∷ [] }) resolved
      sold_found (λ h. refl, (λ h. cc, tt)) (refl, (refl, (refl, (refl, tt))))
