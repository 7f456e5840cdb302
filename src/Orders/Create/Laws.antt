-- ===== src/Orders/Create/Laws.antt =====
-- The idempotency of `createOrder`.
use iuh_exchange_be.Base.{
  ap, String, ◌≡◌, refl, true, Option, none, some, List, [], ◌∷◌, arith, Bool-cases, inl, inr, ◌⊎◌,
  ◌==◌,
}
use iuh_exchange_be.Base.Text.{str_eq, eq_iff}
use iuh_exchange_be.Base.Result.{Result, ok, err, Failure, bad_request, type_error}
use iuh_exchange_be.Orders.Model.{ObjectId, Order}
use iuh_exchange_be.Orders.Events.{Event}
use iuh_exchange_be.Orders.Store.{
  Env, World, Reservation, processing, placed, find_by_id, publish_logged, publish,
}
use iuh_exchange_be.Orders.Store.Laws.{orders-publish_logged}
use iuh_exchange_be.Orders.Create.{
  redis_get, redis_set, redis_del, find_by_key, Catalog, Response, Listing, Request, Checkout,
  offer_content, read_offer, product_content, read_product, get_accepted_offer_checkout,
  get_product_checkout_snapshot, new_order, checkout, create_order, claim_key, create_unless,
  place_checkout, insert_unless, give_up, answer_duplicate, replay, created_events,
}

pub str_eq_refl : (k : String) → str_eq k k ≡ true
str_eq_refl k = (eq_iff k k).1 refl

pub redis_get-set_self :
    (k : String) (v : Reservation) (m : List (String × Reservation))
    → redis_get k (redis_set k v m) ≡ some v
unfolding redis_get redis_set
redis_get-set_self k v [] = rw (str_eq_refl k)
redis_get-set_self k v ((j, u) ∷ m) = elim (Bool-cases (str_eq j k)) [
  | inl same ↦ rw same (rw (str_eq_refl k))
  | inr other ↦ rw other (rw other (redis_get-set_self k v m))
]

pub redis_get-del_self :
    (k : String) (m : List (String × Reservation)) → redis_get k (redis_del k m) ≡ none
unfolding redis_get redis_del
redis_get-del_self k [] = refl
redis_get-del_self k ((j, u) ∷ m) = elim (Bool-cases (str_eq j k)) [
  | inl same ↦ rw same (redis_get-del_self k m)
  | inr other ↦ rw other (rw other (redis_get-del_self k m))
]

pub redis-publish_logged :
    (env : Env) (es : List Event) (w : World) → (publish_logged env es w).redis ≡ w.redis
unfolding publish_logged publish
redis-publish_logged env [] w = refl
redis-publish_logged env (e ∷ es) w =
    ground (arith, redis-publish_logged env es (publish env e w).1)

-- A state that no request with the key has touched.
pub record IsFresh (key : String) (w : World) : Type 0 where
  pub free : redis_get key w.redis ≡ none
  pub unused : find_by_key key w.orders ≡ none

-- A state where the key stands for an order that is there.
pub record IsPlaced (key : String) (o : Order) (w : World) : Type 0 where
  pub held : redis_get key w.redis ≡ some (placed o.id)
  pub by_id : find_by_id o.id w.orders ≡ some o
  pub by_key : find_by_key key w.orders ≡ some o

find_by_id-cons : (o : Order) (os : List Order) → find_by_id o.id (o ∷ os) ≡ some o
unfolding find_by_id
find_by_id-cons o os = ground arith

find_by_key-cons :
    (key : String) (o : Order) (os : List Order)
    → o.idempotency_key ≡ key
    → find_by_key key (o ∷ os) ≡ some o
unfolding find_by_key
find_by_key-cons key o os e = rw e (rw (str_eq_refl key))

insert_unless-IsPlaced :
    (env : Env) (o : Order) (w : World)
    → IsPlaced o.idempotency_key o (insert_unless env o w none).1
unfolding insert_unless
insert_unless-IsPlaced env o w =
    let w' = record w { orders = o ∷ w.orders } in
    let same = orders-publish_logged env (created_events o) w' in
    record {
      held = redis_get-set_self o.idempotency_key (placed o.id) _;
      by_id = rw same (find_by_id-cons o w.orders);
      by_key = rw same (find_by_key-cons o.idempotency_key o w.orders refl);
    }

-- Where the key stands for an order, a duplicate is answered with it and changes nothing.
pub create_order-IsPlaced :
    (env : Env) (c : Catalog) (buyer : ObjectId) (r : Request) (o : Order) (w : World)
    → IsPlaced r.idempotency_key o w
    → (create_order env c buyer r w ≡ (ok o, w)) × (claim_key env c buyer r w ≡ (ok o, w))
unfolding create_order claim_key
create_order-IsPlaced env c buyer r o w h =
    (rw (h.held, answer_duplicate) (rw h.by_id), rw (h.held, replay) (rw h.by_key))

-- How the first request with a key ends, where the product service was read as `k`: with its order
-- placed, or refused with the key given up.
pub data Ends (key : String) (w : World) (k : Result Checkout) : Result Order × World → Type 0 where
  placed_order : (o : Order) (w' : World) → IsPlaced key o w' → Ends key w k (ok o, w')
  refused :
      (x : Failure) (w' : World)
      → (x ≡ bad_request) ⊎ ((x ≡ type_error) × (k ≡ err type_error))
      → redis_get key w'.redis ≡ none
      → w'.orders ≡ w.orders
      → w'.published ≡ w.published
      → Ends key w k (err x, w')

place_checkout-Ends :
    (env : Env) (buyer : ObjectId) (r : Request) (w : World) (k : Result Checkout)
    → ((x : Failure) → k ≡ err x → (x ≡ bad_request) ⊎ (x ≡ type_error))
    → find_by_key r.idempotency_key w.orders ≡ none
    → Ends r.idempotency_key w k (place_checkout env buyer r w k)
unfolding place_checkout give_up
place_checkout-Ends env buyer r w (err x) fails h =
    refused x _
      (elim (fails x refl) [ inl bad ↦ inl bad | inr broken ↦ inr (broken, ap err broken) ])
      (redis_get-del_self r.idempotency_key w.redis) refl refl
place_checkout-Ends env buyer r w (ok c) fails h = elim (Bool-cases (buyer == c.seller_id)) [
  | inl own ↦
      rw own
        (refused bad_request _ (inl refl) (redis_get-del_self r.idempotency_key w.redis) refl refl)
  | inr other ↦ rw other (
      rw h (
        placed_order (new_order env buyer r c) _
          (insert_unless-IsPlaced env (new_order env buyer r c) w)))
]

read_offer_fails :
    (a : Option (Response Checkout)) (x : Failure)
    → read_offer a ≡ err x
    → (x ≡ bad_request) ⊎ (x ≡ type_error)
unfolding read_offer offer_content
read_offer_fails a x e = ground arith

read_product_fails :
    (id : ObjectId) (a : Option (Response Listing)) (x : Failure)
    → read_product id a ≡ err x
    → (x ≡ bad_request) ⊎ (x ≡ type_error)
unfolding read_product product_content
read_product_fails id a x e = ground arith

checkout_fails :
    (c : Catalog) (buyer : ObjectId) (r : Request) (offer : Option ObjectId) (x : Failure)
    → r.offer_id ≡ offer
    → checkout c buyer r ≡ err x
    → (x ≡ bad_request) ⊎ (x ≡ type_error)
unfolding checkout get_accepted_offer_checkout get_product_checkout_snapshot
checkout_fails c buyer r none x of e = read_product_fails r.product_id _ x (rw of at e)
checkout_fails c buyer r (some offer) x of e = read_offer_fails _ x (rw of at e)

-- The first request with a key either places an order that the key then stands for, or is refused,
-- with 400 or with the TypeError of a read of the product service that got no answer or no offer;
-- and then the key is free again and no order was stored and no event published.
pub create_order-Ends :
    (env : Env) (c : Catalog) (buyer : ObjectId) (r : Request) (w : World)
    → IsFresh r.idempotency_key w
    → Ends r.idempotency_key w (checkout c buyer r) (create_order env c buyer r w)
unfolding create_order claim_key
create_order-Ends env c buyer r w h =
    rw (h.free, create_unless, claim_key)
      (rw h.free (
        keep_frame (
          place_checkout-Ends env buyer r
            (record w { redis = redis_set r.idempotency_key processing w.redis })
            (checkout c buyer r) (λ x. checkout_fails c buyer r r.offer_id x refl) h.unused)))
  where
    keep_frame :
        {k : Result Checkout} {p : Result Order × World}
        → Ends r.idempotency_key
            (record w { redis = redis_set r.idempotency_key processing w.redis })
            k
            p
        → Ends r.idempotency_key w k p
    keep_frame (placed_order o w' x) = placed_order o w' x
    keep_frame (refused x w' why a b c) = refused x w' why a b c

pub Ends-ok :
    (key : String) (w : World) (k : Result Checkout) (o : Order) (w' : World)
    {p : Result Order × World}
    → Ends key w k p
    → p ≡ (ok o, w')
    → IsPlaced key o w'
Ends-ok key w k o w' (placed_order o₁ w₁ h) e =
    let same : o₁ ≡ o = cc (ap (λ (q : Result Order × World). q.0) e) in
    let after : w₁ ≡ w' = ap (λ (q : Result Order × World). q.1) e in rw (← same, ← after) h
Ends-ok key w k o w' (refused x w₁ why a b c) e = cc (ap (λ (q : Result Order × World). q.0) e)
