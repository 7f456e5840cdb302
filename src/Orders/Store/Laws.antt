-- ===== src/Orders/Store/Laws.antt =====
-- Laws of the orders table, and how a property of single orders carries over to a handler.
use iuh_exchange_be.Base.{
  ap, ◌≡◌, refl, ◌≢◌, Option, none, some, List, [], ◌∷◌, All, arith, inl, inr, Bool-cases, ◌==◌,
  ◌∙◌,
}
use mathlib.Core.Path.{subst}
use iuh_exchange_be.Base.Result.{Result, ok, err}
use iuh_exchange_be.Orders.Model.{ObjectId, Order}
use iuh_exchange_be.Orders.Events.{Event}
use iuh_exchange_be.Orders.Store.{
  Env, World, find_by_id, upsert, save, publish, publish_logged, publish_all, attempt, commit,
  commit_strict, after_publish, update_order, update_order_strict,
}

pub find_by_id-upsert_self : (o : Order) (os : List Order) → find_by_id o.id (upsert o os) ≡ some o
unfolding find_by_id upsert
find_by_id-upsert_self o [] = ground arith
find_by_id-upsert_self o (x ∷ xs) = ground (arith, find_by_id-upsert_self o xs)

pub find_by_id-upsert_ne :
    (j : ObjectId) (o : Order) (os : List Order)
    → j ≢ o.id
    → find_by_id j (upsert o os) ≡ find_by_id j os
unfolding find_by_id upsert
find_by_id-upsert_ne j o [] h = ground arith
find_by_id-upsert_ne j o (x ∷ xs) h = ground (arith, find_by_id-upsert_ne j o xs h)

pub orders-publish : (env : Env) (e : Event) (w : World) → (publish env e w).1.orders ≡ w.orders
unfolding publish
orders-publish env e w = ground arith

pub orders-publish_logged :
    (env : Env) (es : List Event) (w : World) → (publish_logged env es w).orders ≡ w.orders
unfolding publish_logged
orders-publish_logged env [] w = refl
orders-publish_logged env (e ∷ es) w =
    orders-publish_logged env es (publish env e w).1 ∙ orders-publish env e w

pub orders-publish_all :
    (env : Env) (es : List Event) (w : World) → (publish_all env es w).1.orders ≡ w.orders
unfolding publish_all
orders-publish_all env [] w = refl
orders-publish_all env (e ∷ es) w =
    ground (arith, orders-publish env e w, orders-publish_all env es (publish env e w).1)

-- The table after a handler has made `r` of an order.
abbrev pub written : Result Order → List Order → List Order
written (err _) os = os
written (ok o) os = upsert o os

pub orders-commit :
    (env : Env) (events : Order → List Event) (w : World) (r : Result Order)
    → (commit env events w r).1.orders ≡ written r w.orders
unfolding commit save
orders-commit env events w (err e) = refl
orders-commit env events w (ok o) = orders-publish_logged env (events o) (save o w)

world-after_publish : (o : Order) (p : Result (Unit {0}) × World) → (after_publish o p).1 ≡ p.1
unfolding after_publish
world-after_publish o (ok u, w) = refl
world-after_publish o (err x, w) = refl

pub orders-commit_strict :
    (env : Env) (events : Order → List Event) (w : World) (r : Result Order)
    → (commit_strict env events w r).1.orders ≡ written r w.orders
unfolding commit_strict save
orders-commit_strict env events w (err e) = refl
orders-commit_strict env events w (ok o) =
    ap (λ (v : World). v.orders) (world-after_publish o (publish_all env (events o) (save o w)))
    ∙ orders-publish_all env (events o) (save o w)

-- The table after an update is the table with the order that the change gives, if it gives one.
pub orders-update_order :
    (env : Env) (id : ObjectId) (f : Order → Result Order) (events : Order → List Event) (w : World)
    → (update_order env id f events w).1.orders
      ≡ written (attempt f (find_by_id id w.orders)) w.orders
unfolding update_order
orders-update_order env id f events w =
    orders-commit env events w (attempt f (find_by_id id w.orders))

pub orders-update_order_strict :
    (env : Env) (id : ObjectId) (f : Order → Result Order) (events : Order → List Event) (w : World)
    → (update_order_strict env id f events w).1.orders
      ≡ written (attempt f (find_by_id id w.orders)) w.orders
unfolding update_order_strict
orders-update_order_strict env id f events w =
    orders-commit_strict env events w (attempt f (find_by_id id w.orders))

module _ {ℓ} (P : Order → Type ℓ) where
  -- A property of every order holds of the one that is found.
  pub All-find_by_id :
      (id : ObjectId) (os : List Order) (o : Order) → All P os → find_by_id id os ≡ some o → P o
  unfolding find_by_id
  All-find_by_id id [] o h e = cc
  All-find_by_id id (x ∷ xs) o h e = elim (Bool-cases (x.id == id)) [
    | inl same ↦
        let found : some x ≡ some o = rw (← e) (rw same) in let q : x ≡ o = cc in subst P q h.0
    | inr differs ↦ All-find_by_id id xs o h.1 (rw (← e) (rw differs))
  ]

  pub All-upsert : (o : Order) (os : List Order) → P o → All P os → All P (upsert o os)
  unfolding upsert
  All-upsert o [] p h = (p, tt)
  All-upsert o (x ∷ xs) p h = elim (Bool-cases (x.id == o.id)) [
    | inl same ↦ rw same (p, h.1)
    | inr differs ↦ rw differs (h.0, All-upsert o xs p h.1)
  ]

  -- A change that keeps the property of the order that it is given keeps it in the table.
  pub All-written :
      (f : Order → Result Order)
      → ((o o' : Order) → P o → f o ≡ ok o' → P o')
      → (os : List Order) (found : Option Order) → ((o : Order) → found ≡ some o → P o)
      → All P os
      → All P (written (attempt f found) os)
  unfolding attempt
  All-written f keep os none here h = h
  All-written f keep os (some o) here h = split (f o) refl
    where
      split : (r : Result Order) → f o ≡ r → All P (written r os)
      split (err x) e = h
      split (ok o') e = All-upsert o' os (keep o o' (here o refl) e) h

  pub All-update :
      (f : Order → Result Order)
      → ((o o' : Order) → P o → f o ≡ ok o' → P o')
      → (id : ObjectId) (os : List Order) → All P os
      → All P (written (attempt f (find_by_id id os)) os)
  All-update f keep id os h =
      All-written f keep os (find_by_id id os) (λ o. All-find_by_id id os o h) h
