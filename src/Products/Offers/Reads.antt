-- ===== src/Products/Offers/Reads.antt =====
-- What packages/product-service/src/controllers/offer.controller.js reads out; the lists save what
-- has expired.
use iuh_exchange_be.Base.{
  ℕ, String, Bool, not, Option, none, some, List, [], ◌∷◌, ◌==◌, if◌then◌else◌, select, take, drop,
  reverse, map,
}
use iuh_exchange_be.Base.Result.{Result, ok, err, bad_request, not_found, forbidden}
use iuh_exchange_be.Orders.Model.{ObjectId, ListingType, trade}
use iuh_exchange_be.Products.Saga.{Product, is_available, find_product}
use iuh_exchange_be.Products.Offers.Document.{
  save_expired, is_accepted, Offer, Proposal, Action, Env, Market, find_offer, expire_if_needed,
}
use iuh_exchange_be.Products.Offers.Handlers.{create_offer, resolve_offer, withdraw_offer}

-- What a checkout is told.
pub record OfferCheckout : Type 0 where
  pub offer_id : ObjectId
  pub product_id : ObjectId
  pub seller_id : ObjectId
  pub buyer_id : ObjectId
  pub price : Option ℕ
  pub listing_type : ListingType
  pub trade_item_title : String
  pub trade_item_description : String

unfoldable pub checkout_of : Offer → Product → OfferCheckout
checkout_of o p = record {
  offer_id = o.id;
  product_id = o.product_id;
  seller_id = o.seller_id;
  buyer_id = o.buyer_id;
  price = if o.for_trade then some 0 else o.amount;
  listing_type = if o.for_trade then trade else p.listing_type;
  trade_item_title = o.trade_item_title;
  trade_item_description = o.trade_item_description;
}

unfoldable pub checkout_product : Offer → Option Product → Result OfferCheckout
unfolding is_available checkout_of
checkout_product o none = err not_found
checkout_product o (some p) =
    if is_available p.status then ok (checkout_of o p) else err bad_request

unfoldable pub checkout_found : ObjectId → Market → Option Offer → Result OfferCheckout
unfolding checkout_product find_product is_accepted
checkout_found buyer m none = err not_found
checkout_found buyer m (some o) =
    if not (o.buyer_id == buyer)
    then err forbidden
    else if not (is_accepted o.status)
    then err bad_request
    else checkout_product o (find_product o.product_id m.products)

unfoldable pub get_offer_checkout : ObjectId → ObjectId → Market → Result OfferCheckout
unfolding checkout_found find_offer
get_offer_checkout buyer offer m = checkout_found buyer m (find_offer offer m.offers)

-- `offers.map(expireOfferIfNeeded)`
unfoldable pub expire_each : Env → List Offer → Market → Market
unfolding save_expired
expire_each e [] m = m
expire_each e (o ∷ os) m = expire_each e os (save_expired e o m)

-- The newest first: the table keeps the order of creation. `parsePagination` gives the size, which is
-- not 0, and what is skipped.
unfoldable pub listed_offers : (Offer → Bool) → ℕ → ℕ → List Offer → List Offer
listed_offers filter skip size offers = take size (drop skip (reverse (select filter offers)))

-- The content of a page; its expired offers are saved as such.
unfoldable pub list_offers : Env → (Offer → Bool) → ℕ → ℕ → Market → List Offer × Market
unfolding listed_offers expire_each expire_if_needed
list_offers e filter skip size m =
    let listed = listed_offers filter skip size m.offers in
    (map (expire_if_needed e) listed, expire_each e listed m)

unfoldable pub list_for_seller :
    Env → ObjectId → ObjectId → ℕ → ℕ → Option Product → Market → Result (List Offer) × Market
unfolding list_offers
list_for_seller e user product skip size none m = (err not_found, m)
list_for_seller e user product skip size (some p) m =
    if p.seller_id == user
    then (let r = list_offers e (λ o. o.product_id == product) skip size m in (ok r.0, r.1))
    else (err forbidden, m)

unfoldable pub list_product_offers :
    Env → ObjectId → ObjectId → ℕ → ℕ → Market → Result (List Offer) × Market
unfolding list_for_seller find_product
list_product_offers e user product skip size m =
    list_for_seller e user product skip size (find_product product m.products) m

unfoldable pub list_my_offers : Env → ObjectId → ℕ → ℕ → Market → List Offer × Market
unfolding list_offers
list_my_offers e user skip size m = list_offers e (λ o. o.buyer_id == user) skip size m

pub data Request : Type 0 where
  to_create : ObjectId → ObjectId → Proposal → Request
  to_resolve : ObjectId → ObjectId → Action → Request
  to_withdraw : ObjectId → ObjectId → Request
  to_list_product : ObjectId → ObjectId → ℕ → ℕ → Request
  to_list_mine : ObjectId → ℕ → ℕ → Request

-- One request and what it leaves.
unfoldable pub each_offer_request : Env → Request → Market → Market
unfolding create_offer resolve_offer withdraw_offer list_product_offers list_my_offers
each_offer_request e (to_create buyer product b) m = (create_offer e buyer product b m).1
each_offer_request e (to_resolve user offer action) m = (resolve_offer e user offer action m).1
each_offer_request e (to_withdraw user offer) m = (withdraw_offer e user offer m).1
each_offer_request e (to_list_product user product skip size) m =
    (list_product_offers e user product skip size m).1
each_offer_request e (to_list_mine user skip size) m = (list_my_offers e user skip size m).1

unfoldable pub run_requests : List (Env × Request) → Market → Market
unfolding each_offer_request
run_requests [] m = m
run_requests (r ∷ rs) m = run_requests rs (each_offer_request r.0 r.1 m)
