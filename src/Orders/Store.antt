-- ===== src/Orders/Store.antt =====
-- What a handler of the order service reads and changes: the orders table, the Redis keys and the
-- events that the broker took. A handler is a function of the environment and this state.
pub mod Laws
use iuh_exchange_be.Base.{
  ℕ, String, Bool, Option, none, some, List, [], ◌∷◌, ◌++◌, ◌==◌, if◌then◌else◌, ◌&&◌,
}
use iuh_exchange_be.Base.Result.{Result, ok, err, not_found, broker_down}
use iuh_exchange_be.Orders.Model.{ObjectId, Order}
use iuh_exchange_be.Orders.Events.{Event}

-- What a handler takes from outside: the clock, the random texts and ids, and the broker.
pub record Env : Type 0 where
  pub now : ℕ
  -- the text of `Date.now()`
  pub now_text : String
  -- the six digits of `crypto.randomInt(100000, 1000000)`
  pub handover_code : String
  -- the text `${Date.now()}_${crypto.randomBytes(4).toString('hex')}`
  pub token : String
  -- `new ObjectId().toHexString()`, counted over one request
  pub object_id : ℕ → ObjectId
  pub producer_ready : Bool
  pub broker : Event → Bool

-- The value of an idempotency key: 'PROCESSING' or an order's id.
pub data Reservation : Type 0 where
  processing : Reservation
  placed : ObjectId → Reservation

pub record World : Type 0 where
  pub orders : List Order
  pub redis : List (String × Reservation)
  pub published : List Event

-- `Order.findById(id)`
unfoldable pub find_by_id : ObjectId → List Order → Option Order
find_by_id id [] = none
find_by_id id (o ∷ os) = if o.id == id then some o else find_by_id id os

-- The upsert on `id` of `order.save()`.
unfoldable pub upsert : Order → List Order → List Order
upsert o [] = o ∷ []
upsert o (x ∷ xs) = if x.id == o.id then o ∷ xs else x ∷ upsert o xs

unfoldable pub save : Order → World → World
save o w = record w { orders = upsert o w.orders }

-- The publishers of saga.service.js: each throws without a producer and when the broker refuses.
unfoldable pub publish : Env → Event → World → Result (Unit {0}) × World
publish env e w =
    if env.producer_ready && env.broker e
    then (ok tt, record w { published = w.published ++ (e ∷ []) })
    else (err broker_down, w)

-- `try { await publish… } catch (e) { logger.error(…) }`
unfoldable pub publish_logged : Env → List Event → World → World
publish_logged env [] w = w
publish_logged env (e ∷ es) w = publish_logged env es (publish env e w).1

-- Find the order, then check and change it; `f` is what the handler does between the two.
unfoldable pub attempt : (Order → Result Order) → Option Order → Result Order
attempt f none = err not_found
attempt f (some o) = f o

-- Save what was made of the order, and publish; the failure of a publish is logged and does not
-- fail the request.
unfoldable pub commit : Env → (Order → List Event) → World → Result Order → Result Order × World
commit env events w (err e) = (err e, w)
commit env events w (ok o) = (ok o, publish_logged env (events o) (save o w))

-- The shape of a handler on one order: find it, check and change it, save it, and publish.
unfoldable pub update_order :
    Env → ObjectId → (Order → Result Order) → (Order → List Event) → World → Result Order × World
unfolding attempt commit
update_order env id change events w = commit env events w (attempt change (find_by_id id w.orders))

-- The publishes of the payment handlers, which nothing catches: the first that throws ends the
-- request.
unfoldable pub publish_all : Env → List Event → World → Result (Unit {0}) × World
publish_all env [] w = (ok tt, w)
publish_all env (e ∷ es) w =
    let (r, w') = publish env e w in elim r [ err x ↦ (err x, w') | ok _ ↦ publish_all env es w' ]

unfoldable pub after_publish : Order → Result (Unit {0}) × World → Result Order × World
after_publish o (ok _, w) = (ok o, w)
after_publish o (err x, w) = (err x, w)

-- What a publish throws fails the request, after the order is saved.
unfoldable pub commit_strict :
    Env → (Order → List Event) → World → Result Order → Result Order × World
unfolding after_publish
commit_strict env events w (err e) = (err e, w)
commit_strict env events w (ok o) = after_publish o (publish_all env (events o) (save o w))

unfoldable pub update_order_strict :
    Env → ObjectId → (Order → Result Order) → (Order → List Event) → World → Result Order × World
unfolding attempt commit_strict
update_order_strict env id change events w =
    commit_strict env events w (attempt change (find_by_id id w.orders))
