-- ===== src/Orders/Create/Once.antt =====
-- The idempotency of `createOrder` over whatever else the service does in between.
use iuh_exchange_be.Base.{String, ◌≡◌, refl, false, some, List, [], ◌∷◌, ◌==◌, All}
use iuh_exchange_be.Base.Result.{ok}
use iuh_exchange_be.Orders.Model.{ObjectId, Order}
use iuh_exchange_be.Orders.Store.{Env, World, find_by_id}
use iuh_exchange_be.Orders.Views.{get_receipt}
use iuh_exchange_be.Orders.Create.{Request, Catalog, create_order, claim_key, checkout}
use iuh_exchange_be.Orders.Create.Laws.{IsFresh, create_order-Ends, create_order-IsPlaced, Ends-ok}
use iuh_exchange_be.Orders.Create.Taken.{IsTaken, written-IsTaken}
use iuh_exchange_be.Orders.Create.Handlers.{redis-handle, change-SameIdentity}
use iuh_exchange_be.Orders.Machine.{Call, command, message, create, receipt, serve, handle, change}
use iuh_exchange_be.Orders.Machine.Lift.{orders-handle}
use iuh_exchange_be.Orders.Create.Standing.{Stands, moved, message-Stands, receipt-Stands}
use iuh_exchange_be.Orders.Create.Others.{create-Stands, Stands-IsPlaced}

-- The calls of the service, one after the other, each in its environment.
unfoldable pub serve_all : List (Env × Call) → World → World
unfolding serve
serve_all [] w = w
serve_all (x ∷ xs) w = serve_all xs (serve x.0 x.1 w)

module _ (key : String) (id : ObjectId) where
  serve-Stands :
      (env : Env) (c : Call) (w : World)
      → (env.object_id 0 == id) ≡ false
      → Stands key id w
      → Stands key id (serve env c w)
  unfolding serve get_receipt
  serve-Stands env (command i c) w fresh h =
      moved key id (handle env i c w).1 w.redis _ (redis-handle env i c w) (orders-handle env i c w)
        (written-IsTaken key id w.redis w.orders h i (change env c) (change-SameIdentity env c))
  serve-Stands env (message m) w fresh h = message-Stands key id env m w h
  serve-Stands env (create c buyer r) w fresh h = create-Stands key id env c buyer r w fresh h
  serve-Stands env (receipt number i user) w fresh h =
      receipt-Stands key id number i user w (find_by_id i w.orders) refl h

  all-Stands :
      (xs : List (Env × Call)) (w : World)
      → All (λ (x : Env × Call). (x.0.object_id 0 == id) ≡ false) xs
      → Stands key id w
      → Stands key id (serve_all xs w)
  unfolding serve_all
  all-Stands [] w fresh h = h
  all-Stands (x ∷ xs) w fresh h =
      all-Stands xs (serve x.0 x.1 w) fresh.1 (serve-Stands x.0 x.1 w fresh.0 h)

-- The first request with a key places an order. Then the service answers any calls, requests of any
-- users on any orders, messages, receipts and further requests with this or other keys, in
-- environments that give no new order the id of that one. A later request with the key, from any
-- user and with any content, is answered with the order of that id, as it is by then, and changes
-- nothing; and so is one that had read the key before the order was placed and only then tries to
-- take it. The key's expiry in Redis, after a day, is no such call.
pub create_order_once :
    (env env' : Env) (c c' : Catalog) (buyer buyer' : ObjectId) (r r' : Request) (o : Order)
    (w w' : World) (calls : List (Env × Call))
    → IsFresh r.idempotency_key w
    → create_order env c buyer r w ≡ (ok o, w')
    → All (λ (x : Env × Call). (x.0.object_id 0 == o.id) ≡ false) calls
    → r'.idempotency_key ≡ r.idempotency_key
    → (o' : Order) × (o'.id ≡ o.id)
      × (find_by_id o.id (serve_all calls w').orders ≡ some o')
      × (create_order env' c' buyer' r' (serve_all calls w') ≡ (ok o', serve_all calls w'))
      × (claim_key env' c' buyer' r' (serve_all calls w') ≡ (ok o', serve_all calls w'))
create_order_once env env' c c' buyer buyer' r r' o w w' calls fresh e others same =
    let key = r.idempotency_key in
    let first =
      Ends-ok key w (checkout c buyer r) o w' (create_order-Ends env c buyer r w fresh) e in
    let stood : IsTaken key o.id w'.redis w'.orders = record {
      order = o;
      of_id = refl;
      held = first.held;
      by_id = first.by_id;
      by_key = first.by_key;
    } in
    let stands = all-Stands key o.id calls w' others stood in
    let placed_now = Stands-IsPlaced key o.id (serve_all calls w') stands in
    let answers =
      create_order-IsPlaced env' c' buyer' r' stands.order (serve_all calls w')
        (rw same placed_now) in
    (stands.order, stands.of_id, stands.by_id, answers.0, answers.1)
