-- ===== src/Orders/Create.antt =====
-- `createOrder` of packages/order-service/src/services/order.service.js: the idempotency key in
-- Redis, the checkout, the insert with its unique key, and the announcement.
pub mod Laws
pub mod Identity
pub mod Taken
pub mod Handlers
pub mod Standing
pub mod Others
pub mod Once
use iuh_exchange_be.Base.{
  ℕ, String, Option, none, some, List, [], ◌∷◌, ◌==◌, ◌&&◌, ◌||◌, not, Bool, if◌then◌else◌, is_some,
}
use iuh_exchange_be.Base.Text.{truthy, str_eq}
use iuh_exchange_be.Base.Result.{Result, ok, err, Failure, bad_request, conflict, type_error}
use iuh_exchange_be.Orders.Model.{
  ObjectId, Order, ListingType, pending, PaymentMethod, no_method, bank_transfer, cash, by_user,
  buyer, not_scheduled, proposed, MeetingProposal, no_cancellation, no_dispute, new_payment,
  no_issue,
}
use iuh_exchange_be.Orders.Events.{Event, order_created, parties}
use iuh_exchange_be.Orders.Handover.{new_proposal, with_nested_ids}
use iuh_exchange_be.Orders.Store.{
  Env, World, Reservation, processing, placed, find_by_id, publish_logged,
}

-- `redis.get(key)`, `redis.set(key, …)` and `redis.del(key)`. A key's expiry after a day is not
-- modelled.
unfoldable pub redis_get : String → List (String × Reservation) → Option Reservation
redis_get k [] = none
redis_get k ((j, v) ∷ m) = if str_eq j k then some v else redis_get k m

unfoldable pub redis_set :
    String → Reservation → List (String × Reservation) → List (String × Reservation)
redis_set k v [] = (k, v) ∷ []
redis_set k v ((j, u) ∷ m) = if str_eq j k then (k, v) ∷ m else (j, u) ∷ redis_set k v m

unfoldable pub redis_del : String → List (String × Reservation) → List (String × Reservation)
redis_del k [] = []
redis_del k ((j, v) ∷ m) = let rest = redis_del k m in if str_eq j k then rest else (j, v) ∷ rest

-- `Order.findOne({ idempotencyKey })`
unfoldable pub find_by_key : String → List Order → Option Order
find_by_key k [] = none
find_by_key k (o ∷ os) = if str_eq o.idempotency_key k then some o else find_by_key k os

-- What a product or an accepted offer gives to the order.
pub record Checkout : Type 0 where
  pub product_id : ObjectId
  pub seller_id : ObjectId
  pub price : ℕ
  pub listing_type : ListingType
  pub trade_item_title : String
  pub trade_item_description : String

pub record Request : Type 0 where
  pub idempotency_key : String
  pub product_id : ObjectId
  pub offer_id : Option ObjectId
  pub buyer_note : String
  pub handover_location : String
  pub handover_time : Option ℕ
  pub payment_method : PaymentMethod

-- `body.data` of a product: its id may be missing; `for_sale` is `status === 'AVAILABLE'`.
pub record Listing : Type 0 where
  pub id : Option ObjectId
  pub seller_id : ObjectId
  pub price : ℕ
  pub listing_type : ListingType
  pub for_sale : Bool

-- An answer of the product service: `response.ok`, and `success` and `data` of its body, which are
-- missing where the body cannot be parsed.
pub record Response (A : Type 0) : Type 0 where
  pub is_ok : Bool
  pub success : Bool
  pub content : Option A

-- The product service, as `fetch` of an id by a buyer sees it: none where `fetch` rejects.
pub record Catalog : Type 0 where
  pub fetch_offer : ObjectId → ObjectId → Option (Response Checkout)
  pub fetch_product : ObjectId → ObjectId → Option (Response Listing)

-- `product.id || product._id || productId`
unfoldable pub get_or : ObjectId → Option ObjectId → ObjectId
get_or id none = id
get_or id (some own) = own

-- What `fetch` rejects with is a TypeError, and so is what the read of a missing offer throws.
unfoldable pub offer_content : Option Checkout → Result Checkout
offer_content none = err type_error
offer_content (some c) = ok c

unfoldable pub read_offer : Option (Response Checkout) → Result Checkout
unfolding offer_content
read_offer none = err type_error
read_offer (some r) =
    if not r.is_ok || not r.success then err bad_request else offer_content r.content

unfoldable pub get_accepted_offer_checkout : Catalog → ObjectId → ObjectId → Result Checkout
unfolding read_offer
get_accepted_offer_checkout c offer_id buyer_id = read_offer (c.fetch_offer offer_id buyer_id)

unfoldable pub product_content : ObjectId → Option Listing → Result Checkout
unfolding get_or
product_content product_id none = err bad_request
product_content product_id (some p) =
    if not p.for_sale
    then err bad_request
    else ok (record {
      product_id = get_or product_id p.id;
      seller_id = p.seller_id;
      price = p.price;
      listing_type = p.listing_type;
      trade_item_title = "";
      trade_item_description = "";
    })

unfoldable pub read_product : ObjectId → Option (Response Listing) → Result Checkout
unfolding product_content
read_product product_id none = err type_error
read_product product_id (some r) =
    if not r.is_ok || not r.success then err bad_request else product_content product_id r.content

unfoldable pub get_product_checkout_snapshot : Catalog → ObjectId → ObjectId → Result Checkout
unfolding read_product
get_product_checkout_snapshot c product_id buyer_id =
    read_product product_id (c.fetch_product product_id buyer_id)

unfoldable pub checkout : Catalog → ObjectId → Request → Result Checkout
unfolding get_accepted_offer_checkout get_product_checkout_snapshot
checkout c buyer_id r = elim (r.offer_id) [
  | some offer ↦ get_accepted_offer_checkout c offer buyer_id
  | none ↦ get_product_checkout_snapshot c r.product_id buyer_id
]

-- `['BANK_TRANSFER', 'CASH'].includes(request.paymentMethod) ? … : 'NONE'`
unfoldable pub chosen_method : PaymentMethod → PaymentMethod
chosen_method bank_transfer = bank_transfer
chosen_method cash = cash
chosen_method _ = no_method

unfoldable pub first_proposals : Env → ObjectId → String → String → Option ℕ → List MeetingProposal
unfolding with_nested_ids new_proposal
first_proposals env buyer_id location note none = []
first_proposals env buyer_id location note (some at) =
    if truthy location
    then with_nested_ids env 1 (new_proposal location at note buyer_id ∷ [])
    else []

unfoldable pub new_order : Env → ObjectId → Request → Checkout → Order
unfolding first_proposals chosen_method no_cancellation no_dispute new_payment no_issue
new_order env buyer_id r c = record {
  id = env.object_id 0;
  buyer_id = buyer_id;
  seller_id = c.seller_id;
  product_id = c.product_id;
  offer_id = r.offer_id;
  price = c.price;
  listing_type = c.listing_type;
  trade_item_title = c.trade_item_title;
  trade_item_description = c.trade_item_description;
  status = pending;
  buyer_note = r.buyer_note;
  idempotency_key = r.idempotency_key;
  status_history =
      record {
        from = none;
        to = pending;
        changed_by = by_user buyer_id;
        actor_role = buyer;
        reason = "Order created";
        category = none;
      }
      ∷ [];
  completed_at = none;
  receipt_number = none;
  no_show_reports = [];
  cancellation = no_cancellation;
  handover = record {
    location = r.handover_location;
    time = r.handover_time;
    status =
        if truthy r.handover_location && is_some r.handover_time then proposed else not_scheduled;
    proposals = first_proposals env buyer_id r.handover_location r.buyer_note r.handover_time;
    code = none;
    code_expires_at = none;
    proofs = [];
    buyer_confirmed_at = none;
    seller_confirmed_at = none;
  };
  dispute = no_dispute;
  payment = new_payment (chosen_method r.payment_method);
  issue = no_issue;
}

-- `existing.toObject()`, or the conflict where the order is not there yet.
unfoldable pub replay_found : World → Option Order → Result Order × World
replay_found w none = (err conflict, w)
replay_found w (some o) = (ok o, w)

unfoldable pub replay : String → World → Result Order × World
unfolding replay_found
replay key w = replay_found w (find_by_key key w.orders)

-- A request whose key is already in Redis: the order by its id, else by the key.
unfoldable pub replay_placed : String → World → Option Order → Result Order × World
unfolding replay
replay_placed key w none = replay key w
replay_placed key w (some o) = (ok o, w)

unfoldable pub answer_duplicate : String → World → Reservation → Result Order × World
unfolding replay replay_placed
answer_duplicate key w processing = replay key w
answer_duplicate key w (placed id) = replay_placed key w (find_by_id id w.orders)

-- `catch (err) { await redis.del(redisKey); throw err; }`: no error in the block is a conflict.
unfoldable pub give_up : String → Failure → World → Result Order × World
give_up key e w = (err e, record w { redis = redis_del key w.redis })

-- `redis.set(redisKey, order._id.toString(), …)`
unfoldable pub remember : Order → World → World
remember o w = record w { redis = redis_set o.idempotency_key (placed o.id) w.redis }

abbrev pub created_events : Order → List Event
created_events o = order_created (parties o) o.product_id o.price o.offer_id ∷ []

-- `Order.create` is refused (code 11000) where an order already holds the key: the unique index.
-- A failed announcement sets `_kafkaPublishFailed` and saves again, which stores nothing new.
unfoldable pub insert_unless : Env → Order → World → Option Order → Result Order × World
unfolding remember
insert_unless env o w (some existing) =
    (ok existing, record w { redis = redis_set o.idempotency_key (placed existing.id) w.redis })
insert_unless env o w none =
    (ok o, remember o (publish_logged env (created_events o) (record w { orders = o ∷ w.orders })))

unfoldable pub insert_order : Env → Order → World → Result Order × World
unfolding insert_unless
insert_order env o w = insert_unless env o w (find_by_key o.idempotency_key w.orders)

-- The block after the key is taken: no one buys their own product.
unfoldable pub place_checkout :
    Env → ObjectId → Request → World → Result Checkout → Result Order × World
unfolding new_order give_up insert_order
place_checkout env buyer_id r w (err e) = give_up r.idempotency_key e w
place_checkout env buyer_id r w (ok c) =
    if buyer_id == c.seller_id
    then give_up r.idempotency_key bad_request w
    else insert_order env (new_order env buyer_id r c) w

-- After the read of the key: `SET … NX` takes it, or finds that another request has it.
unfoldable pub claim_unless :
    Env → Catalog → ObjectId → Request → World → Option Reservation → Result Order × World
unfolding replay place_checkout checkout
claim_unless env c buyer_id r w (some taken) = replay r.idempotency_key w
claim_unless env c buyer_id r w none =
    place_checkout env buyer_id r
      (record w { redis = redis_set r.idempotency_key processing w.redis }) (checkout c buyer_id r)

unfoldable pub claim_key : Env → Catalog → ObjectId → Request → World → Result Order × World
unfolding claim_unless
claim_key env c buyer_id r w = claim_unless env c buyer_id r w (redis_get r.idempotency_key w.redis)

unfoldable pub create_unless :
    Env → Catalog → ObjectId → Request → World → Option Reservation → Result Order × World
unfolding answer_duplicate claim_key
create_unless env c buyer_id r w (some v) = answer_duplicate r.idempotency_key w v
create_unless env c buyer_id r w none = claim_key env c buyer_id r w

unfoldable pub create_order : Env → Catalog → ObjectId → Request → World → Result Order × World
unfolding create_unless
create_order env c buyer_id r w =
    create_unless env c buyer_id r w (redis_get r.idempotency_key w.redis)
