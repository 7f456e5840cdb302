-- ===== src/Orders/Create/Others.antt =====
-- What other requests for orders leave of a key that stands for an order.
use iuh_exchange_be.Base.{
  ap, sym, String, ◌≡◌, refl, false, Option, none, some, ◌∷◌, ◌∙◌, Bool-cases, inl, inr, ◌==◌,
}
use iuh_exchange_be.Base.Text.{str_eq, eq_iff}
use iuh_exchange_be.Base.Result.{Result, ok, err}
use iuh_exchange_be.Orders.Model.{ObjectId, Order}
use iuh_exchange_be.Orders.Store.{
  Env, World, Reservation, processing, placed, find_by_id, publish_logged,
}
use iuh_exchange_be.Orders.Store.Laws.{orders-publish_logged}
use iuh_exchange_be.Orders.Create.{
  Request, Checkout, Catalog, new_order, create_order, claim_key, claim_unless, create_unless,
  place_checkout, give_up, remember, insert_unless, insert_order, replay, replay_found,
  replay_placed, created_events, redis_get, redis_set, answer_duplicate, find_by_key, checkout,
}
use iuh_exchange_be.Orders.Create.Laws.{IsPlaced, redis-publish_logged, create_order-IsPlaced}
use iuh_exchange_be.Orders.Create.Taken.{IsTaken, redis_get-set_other, redis_get-del_other}
use iuh_exchange_be.Orders.Create.Standing.{Stands, re_redis, same-Stands, moved}

replay-world : (w : World) (found : Option Order) → (replay_found w found).1 ≡ w
unfolding replay_found
replay-world w none = refl
replay-world w (some o) = refl

placed-world : (key : String) (w : World) (found : Option Order) → (replay_placed key w found).1 ≡ w
unfolding replay_placed replay
placed-world key w none = replay-world w (find_by_key key w.orders)
placed-world key w (some o) = refl

duplicate-world : (key : String) (w : World) (v : Reservation) → (answer_duplicate key w v).1 ≡ w
unfolding answer_duplicate replay
duplicate-world key w processing = replay-world w (find_by_key key w.orders)
duplicate-world key w (placed id) = placed-world key w (find_by_id id w.orders)

module _ (key : String) (id : ObjectId) where
  -- An order of another key, with an id of its own.
  insert-Stands :
      (env : Env) (o : Order) (w : World) (existing : Option Order)
      → str_eq o.idempotency_key key ≡ false
      → (o.id == id) ≡ false
      → Stands key id w
      → Stands key id (insert_unless env o w existing).1
  unfolding insert_unless remember find_by_id find_by_key
  insert-Stands env o w (some other) apart fresh h =
      re_redis key id _ _ _
        (redis_get-set_other key o.idempotency_key (placed other.id) w.redis apart) h
  insert-Stands env o w none apart fresh h =
      let w' = record w { orders = o ∷ w.orders } in
      let es = created_events o in
      let base : IsTaken key id w.redis (o ∷ w.orders) = record {
        order = h.order;
        of_id = h.of_id;
        held = h.held;
        by_id = rw fresh h.by_id;
        by_key = rw apart h.by_key;
      } in
      re_redis key id (publish_logged env es w').redis _ _
        (redis_get-set_other key o.idempotency_key (placed o.id) (publish_logged env es w').redis
          apart)
        (moved key id (publish_logged env es w') w.redis (o ∷ w.orders)
          (redis-publish_logged env es w') (orders-publish_logged env es w') base)

  checkout-Stands :
      (env : Env) (buyer : ObjectId) (r : Request) (w : World) (k : Result Checkout)
      → str_eq r.idempotency_key key ≡ false
      → (env.object_id 0 == id) ≡ false
      → Stands key id w
      → Stands key id (place_checkout env buyer r w k).1
  unfolding place_checkout give_up insert_order new_order
  checkout-Stands env buyer r w (err x) apart fresh h =
      re_redis key id _ _ _ (redis_get-del_other key r.idempotency_key w.redis apart) h
  checkout-Stands env buyer r w (ok c) apart fresh h = elim (Bool-cases (buyer == c.seller_id)) [
    | inl own ↦
        rw own (re_redis key id _ _ _ (redis_get-del_other key r.idempotency_key w.redis apart) h)
    | inr other ↦ rw other (
        insert-Stands env (new_order env buyer r c) w (find_by_key r.idempotency_key w.orders) apart
          fresh h)
  ]

  claim-Stands :
      (env : Env) (c : Catalog) (buyer : ObjectId) (r : Request) (w : World)
      (v : Option Reservation)
      → str_eq r.idempotency_key key ≡ false
      → (env.object_id 0 == id) ≡ false
      → Stands key id w
      → Stands key id (claim_unless env c buyer r w v).1
  unfolding claim_unless replay
  claim-Stands env c buyer r w (some taken) apart fresh h =
      same-Stands key id w _ (replay-world w (find_by_key r.idempotency_key w.orders)) h
  claim-Stands env c buyer r w none apart fresh h =
      checkout-Stands env buyer r
        (record w { redis = redis_set r.idempotency_key processing w.redis }) (checkout c buyer r)
        apart fresh
        (re_redis key id _ _ _ (redis_get-set_other key r.idempotency_key processing w.redis apart)
          h)

  unless-Stands :
      (env : Env) (c : Catalog) (buyer : ObjectId) (r : Request) (w : World)
      (v : Option Reservation)
      → str_eq r.idempotency_key key ≡ false
      → (env.object_id 0 == id) ≡ false
      → Stands key id w
      → Stands key id (create_unless env c buyer r w v).1
  unfolding create_unless claim_key
  unless-Stands env c buyer r w (some v) apart fresh h =
      same-Stands key id w _ (duplicate-world r.idempotency_key w v) h
  unless-Stands env c buyer r w none apart fresh h =
      claim-Stands env c buyer r w (redis_get r.idempotency_key w.redis) apart fresh h

  pub Stands-IsPlaced : (w : World) (h : Stands key id w) → IsPlaced key h.order w
  Stands-IsPlaced w h = record {
    held = h.held ∙ ap (λ i. some (placed i)) (sym h.of_id);
    by_id = ap (λ i. find_by_id i w.orders) h.of_id ∙ h.by_id;
    by_key = h.by_key;
  }

  pub create-Stands :
      (env : Env) (c : Catalog) (buyer : ObjectId) (r : Request) (w : World)
      → (env.object_id 0 == id) ≡ false
      → Stands key id w
      → Stands key id (create_order env c buyer r w).1
  unfolding create_order
  create-Stands env c buyer r w fresh h = elim (Bool-cases (str_eq r.idempotency_key key)) [
    | inl same ↦
        let e = (eq_iff r.idempotency_key key).0 same in
        let placed_here : IsPlaced r.idempotency_key h.order w = rw e (Stands-IsPlaced w h) in
        same-Stands key id w _
          (ap (λ (p : Result Order × World). p.1)
            (create_order-IsPlaced env c buyer r h.order w placed_here).0)
          h
    | inr apart ↦ unless-Stands env c buyer r w (redis_get r.idempotency_key w.redis) apart fresh h
  ]
