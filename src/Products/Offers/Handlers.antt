-- ===== src/Products/Offers/Handlers.antt =====
-- The handlers of packages/product-service/src/controllers/offer.controller.js.
use iuh_exchange_be.Base.{
  ℕ, Bool, not, Option, none, some, [], ◌∷◌, ◌++◌, ◌==◌, ◌&&◌, ◌||◌, if◌then◌else◌, leb,
}
use iuh_exchange_be.Base.Text.{trim, truthy}
use iuh_exchange_be.Base.Result.{Result, ok, err, bad_request, not_found, forbidden}
use iuh_exchange_be.Orders.Model.{ObjectId}
use iuh_exchange_be.Products.Saga.{Product, is_available, find_product}
use iuh_exchange_be.Products.Offers.Document.{
  accepted, rejected, countered, withdrawn, is_pending, is_accepted, by_user, Offer, offer_created,
  offer_resolved, Proposal, Action, accept, reject, counter, unknown, Env, Market, find_offer,
  update_many, put_offer, resolve_as, expire_if_needed, save_expired, publish_offer, price_of,
  new_offer, units, fits_schema,
}

-- `{ productId, buyerId, status: 'PENDING' }`
unfoldable pub is_pending_of : ObjectId → ObjectId → Offer → Bool
unfolding is_pending
is_pending_of product buyer o =
    o.product_id == product && o.buyer_id == buyer && is_pending o.status

unfoldable pub withdraw_earlier : Env → ObjectId → ObjectId → Market → Market
unfolding update_many is_pending_of resolve_as
withdraw_earlier e product buyer m = record m {
  offers =
      update_many (is_pending_of product buyer) (resolve_as withdrawn e (by_user buyer)) m.offers;
}

-- `Offer.create`, and the event.
unfoldable pub insert_offer : Env → Offer → Market → Result Offer × Market
unfolding fits_schema publish_offer
insert_offer e o m =
    if fits_schema o
    then publish_offer e (offer_created o.id o.product_id o.buyer_id o.seller_id) o
        (record m { offers = m.offers ++ (o ∷ []) })
    else (err bad_request, m)

-- What the type of an offer asks of it: the amount that is stored, where it is allowed.
unfoldable pub check_terms : Proposal → Option (Option ℕ)
unfolding price_of
check_terms b =
    if b.for_trade
    then (if truthy (trim b.trade_item_title) then some none else none)
    else elim (price_of b.amount) [ none ↦ none | some n ↦ some (some n) ]

unfoldable pub create_with :
    Env → ObjectId → Product → Proposal → Option (Option ℕ) → Market → Result Offer × Market
unfolding withdraw_earlier insert_offer new_offer
create_with e buyer p b none m = (err bad_request, m)
create_with e buyer p b (some amount) m =
    insert_offer e (new_offer e buyer p amount b) (withdraw_earlier e p.id buyer m)

unfoldable pub create_for :
    Env → ObjectId → Option Product → Proposal → Market → Result Offer × Market
unfolding is_available create_with check_terms
create_for e buyer none b m = (err not_found, m)
create_for e buyer (some p) b m =
    if p.seller_id == buyer || not (is_available p.status) || not p.allow_offers
    then (err bad_request, m)
    else create_with e buyer p b (check_terms b) m

unfoldable pub create_offer : Env → ObjectId → ObjectId → Proposal → Market → Result Offer × Market
unfolding create_for find_product
create_offer e buyer product b m = create_for e buyer (find_product product m.products) b m

-- What a decision makes of an offer; a message that the schema does not allow fails its save.
unfoldable pub decide : Env → ObjectId → Action → Offer → Option Offer
unfolding resolve_as price_of units
decide e user accept o = some (resolve_as accepted e (by_user user) o)
decide e user reject o = some (resolve_as rejected e (by_user user) o)
decide e user (counter amount message) o = elim (price_of amount) [
  | none ↦ none
  | some n ↦
      if leb (units (trim message)) 1000
      then some (record (resolve_as countered e (by_user user) o) {
        counter_amount = some n;
        counter_message = trim message;
      })
      else none
]
decide e user unknown o = none

-- `{ productId, _id: { $ne }, status: 'PENDING' }`
unfoldable pub is_rival : Offer → Offer → Bool
unfolding is_pending
is_rival o x = x.product_id == o.product_id && not (x.id == o.id) && is_pending x.status

unfoldable pub reject_rivals : Env → ObjectId → Offer → Market → Market
unfolding is_accepted update_many is_rival resolve_as
reject_rivals e user o m =
    if is_accepted o.status
    then record m {
      offers = update_many (is_rival o) (resolve_as rejected e (by_user user)) m.offers;
    }
    else m

unfoldable pub save_decision : Env → ObjectId → Option Offer → Market → Result Offer × Market
unfolding put_offer reject_rivals publish_offer
save_decision e user none m = (err bad_request, m)
save_decision e user (some o) m =
    publish_offer e (offer_resolved o.id o.status) o (reject_rivals e user o (put_offer o m))

-- The guards behind the expiry.
unfoldable pub resolve_current : Env → ObjectId → Action → Offer → Market → Result Offer × Market
unfolding is_pending save_decision decide
resolve_current e user action o m =
    if not (is_pending o.status)
    then (err bad_request, m)
    else if not (o.seller_id == user)
    then (err forbidden, m)
    else save_decision e user (decide e user action o) m

unfoldable pub resolve_found :
    Env → ObjectId → Action → Option Offer → Market → Result Offer × Market
unfolding resolve_current expire_if_needed save_expired
resolve_found e user action none m = (err not_found, m)
resolve_found e user action (some o) m =
    resolve_current e user action (expire_if_needed e o) (save_expired e o m)

unfoldable pub resolve_offer : Env → ObjectId → ObjectId → Action → Market → Result Offer × Market
unfolding resolve_found find_offer
resolve_offer e user offer action m = resolve_found e user action (find_offer offer m.offers) m

unfoldable pub withdraw_found : Env → ObjectId → Option Offer → Market → Result Offer × Market
unfolding is_pending resolve_as put_offer
withdraw_found e user none m = (err not_found, m)
withdraw_found e user (some o) m =
    if not (o.buyer_id == user)
    then (err forbidden, m)
    else if not (is_pending o.status)
    then (err bad_request, m)
    else (
      ok (resolve_as withdrawn e (by_user user) o),
      put_offer (resolve_as withdrawn e (by_user user) o) m,
    )

unfoldable pub withdraw_offer : Env → ObjectId → ObjectId → Market → Result Offer × Market
unfolding withdraw_found find_offer
withdraw_offer e user offer m = withdraw_found e user (find_offer offer m.offers) m
