-- ===== src/Products/Saga.antt =====
-- The product side of the saga: packages/product-service/src/services/saga.listener.js, with the
-- fields of models/Product.js that it and controllers/offer.controller.js read and write. A message
-- carries an order's id, which is only compared.
pub mod Laws
pub mod Sweep
use iuh_exchange_be.Base.{
  ℕ, ◌+◌, ◌*◌, suc, Bool, true, false, not, Option, none, some, List, [], ◌∷◌, ◌++◌, ◌==◌, ◌&&◌,
  ◌||◌, if◌then◌else◌, leb, select, length,
}
use iuh_exchange_be.Base.Result.{Result, ok, err, broker_down}
use iuh_exchange_be.Orders.Model.{ObjectId, ListingType}

pub data ProductStatus : Type 0 where
  pending_approval available reserved pending sold hidden rejected : ProductStatus

unfoldable pub is_available : ProductStatus → Bool
is_available available = true
is_available _ = false

unfoldable pub is_reserved : ProductStatus → Bool
is_reserved reserved = true
is_reserved _ = false

unfoldable pub is_sold : ProductStatus → Bool
is_sold sold = true
is_sold _ = false

-- `status === 'RESERVED' || status === 'PENDING'`
unfoldable pub is_held : ProductStatus → Bool
is_held reserved = true
is_held pending = true
is_held _ = false

pub record Product : Type 0 where
  pub id : ObjectId
  pub seller_id : ObjectId
  pub listing_type : ListingType
  pub allow_offers : Bool
  pub status : ProductStatus
  pub reserved_order_id : Option ObjectId
  pub reserved_by : Option ObjectId
  pub reserved_at : Option ℕ
  pub reservation_expires_at : Option ℕ

pub data Event : Type 0 where
  product_reserved product_reserve_failed product_reserve_expired : ObjectId → ObjectId → Event
  product_updated : ObjectId → ProductStatus → Event

pub record Clock : Type 0 where
  pub now : ℕ
  pub ttl_minutes : ℕ
  pub broker : Event → Bool

pub record Shelf : Type 0 where
  pub products : List Product
  pub published : List Event

unfoldable pub find_product : ObjectId → List Product → Option Product
find_product id [] = none
find_product id (p ∷ ps) = if p.id == id then some p else find_product id ps

unfoldable pub save_product : Product → List Product → List Product
save_product p [] = []
save_product p (x ∷ xs) = let rest = save_product p xs in if x.id == p.id then p ∷ xs else x ∷ rest

-- `product.save()`
unfoldable pub put : Product → Shelf → Shelf
unfolding save_product
put p s = record s { products = save_product p s.products }

-- A publish whose failure is logged.
unfoldable pub tell : Clock → Event → Shelf → Shelf
tell c e s = if c.broker e then record s { published = s.published ++ (e ∷ []) } else s

unfoldable pub is_for : ObjectId → Option ObjectId → Bool
is_for order none = false
is_for order (some o) = o == order

unfoldable pub reserve : Clock → ObjectId → ObjectId → Product → Product
reserve c order buyer p = record p {
  status = reserved;
  reserved_order_id = some order;
  reserved_by = some buyer;
  reserved_at = some c.now;
  reservation_expires_at = some (c.now + c.ttl_minutes * 60 * 1000);
}

-- `findOneAndUpdate({ _id, status: 'AVAILABLE' }, …)` is one step of the database, on what it then
-- finds.
unfoldable pub reserve_found :
    Clock → ObjectId → ObjectId → ObjectId → Shelf → Option Product → Shelf
unfolding tell put reserve is_available
reserve_found c order product buyer s none = tell c (product_reserve_failed order product) s
reserve_found c order product buyer s (some p) =
    if is_available p.status
    then tell c (product_reserved order product)
        (tell c (product_updated product reserved) (put (reserve c order buyer p) s))
    else tell c (product_reserve_failed order product) s

-- `handleOrderCreated` after its read of the product, which gave `seen`; others may have changed
-- the product since.
unfoldable pub answer_created :
    Clock → ObjectId → ObjectId → ObjectId → Option Product → Shelf → Shelf
unfolding is_held is_for is_available tell reserve_found find_product
answer_created c order product buyer none s = tell c (product_reserve_failed order product) s
answer_created c order product buyer (some p) s =
    if is_held p.status && is_for order p.reserved_order_id
    then tell c (product_reserved order product) s
    else if is_available p.status
    then reserve_found c order product buyer s (find_product product s.products)
    else tell c (product_reserve_failed order product) s

unfoldable pub handle_order_created : Clock → ObjectId → ObjectId → ObjectId → Shelf → Shelf
unfolding answer_created
handle_order_created c order product buyer s =
    answer_created c order product buyer (find_product product s.products) s

-- The reservation's fields are cleared.
unfoldable pub settle : ProductStatus → Product → Product
settle status p = record p {
  status = status;
  reserved_order_id = none;
  reserved_by = none;
  reserved_at = none;
  reservation_expires_at = none;
}

unfoldable pub sell_found : Clock → Shelf → Option Product → Shelf
unfolding is_sold settle put tell
sell_found c s none = s
sell_found c s (some p) =
    if is_sold p.status then s else tell c (product_updated p.id sold) (put (settle sold p) s)

unfoldable pub handle_order_completed : Clock → ObjectId → Option ObjectId → Shelf → Shelf
unfolding sell_found find_product
handle_order_completed c order none s = s
handle_order_completed c order (some product) s = sell_found c s (find_product product s.products)

-- `!product.reservedOrderId || product.reservedOrderId === payload.orderId`
unfoldable pub may_release : ObjectId → Option ObjectId → Bool
unfolding is_for
may_release order none = true
may_release order (some o) = is_for order (some o)

unfoldable pub release_found : Clock → ObjectId → Shelf → Option Product → Shelf
unfolding is_held may_release settle put tell
release_found c order s none = s
release_found c order s (some p) =
    if is_held p.status && may_release order p.reserved_order_id
    then tell c (product_updated p.id available) (put (settle available p) s)
    else s

unfoldable pub handle_order_cancelled : Clock → ObjectId → Option ObjectId → Shelf → Shelf
unfolding release_found find_product
handle_order_cancelled c order none s = s
handle_order_cancelled c order (some product) s =
    release_found c order s (find_product product s.products)

-- `{ status: 'RESERVED', reservationExpiresAt: { $lte: now } }`
unfoldable pub is_expired : ℕ → Product → Bool
unfolding is_reserved
is_expired now p =
    is_reserved p.status && elim (p.reservation_expires_at) [ none ↦ false | some t ↦ leb t now ]

unfoldable pub tell_expired : Clock → Product → Option ObjectId → Shelf → Result (Unit {0}) × Shelf
tell_expired c p none s = (ok tt, s)
tell_expired c p (some order) s =
    if c.broker (product_reserve_expired order p.id)
    then (ok tt, record s { published = s.published ++ (product_reserve_expired order p.id ∷ []) })
    else (err broker_down, s)

-- One round of the loop: only the last publish may throw.
unfoldable pub release_one : Clock → Product → Shelf → Result (Unit {0}) × Shelf
unfolding tell_expired tell put settle
release_one c p s =
    tell_expired c p p.reserved_order_id
      (tell c (product_updated p.id available) (put (settle available p) s))

-- What throws ends the loop.
unfoldable pub and_then :
    Result (Unit {0}) × Shelf → (Shelf → Result (Unit {0}) × Shelf) → Result (Unit {0}) × Shelf
and_then (err e, s) rest = (err e, s)
and_then (ok _, s) rest = rest s

unfoldable pub release_all : Clock → List Product → Shelf → Result (Unit {0}) × Shelf
unfolding release_one and_then
release_all c [] s = (ok tt, s)
release_all c (p ∷ ps) s = and_then (release_one c p s) (λ s'. release_all c ps s')

unfoldable pub count_released : ℕ → Result (Unit {0}) × Shelf → Result ℕ × Shelf
count_released n (ok _, s) = (ok n, s)
count_released n (err e, s) = (err e, s)

unfoldable pub release_expired_reservations : Clock → Shelf → Result ℕ × Shelf
unfolding is_expired release_all count_released
release_expired_reservations c s =
    let expired = select (is_expired c.now) s.products in
    count_released (length expired) (release_all c expired s)

pub data Message : Type 0 where
  order_created : ObjectId → ObjectId → ObjectId → Message
  order_completed order_cancelled : ObjectId → Option ObjectId → Message
  unparsable : Message

unfoldable pub each_message : Clock → Message → Shelf → Shelf
unfolding handle_order_created handle_order_completed handle_order_cancelled
each_message c (order_created order product buyer) s = handle_order_created c order product buyer s
each_message c (order_completed order product) s = handle_order_completed c order product s
each_message c (order_cancelled order product) s = handle_order_cancelled c order product s
each_message c unparsable s = s
