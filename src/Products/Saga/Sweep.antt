-- ===== src/Products/Saga/Sweep.antt =====
-- The sweep of expired reservations.
use iuh_exchange_be.Base.{
  ℕ, ◌≡◌, refl, ap, ◌∙◌, ◌⊎◌, inl, inr, Bool, true, false, Option, none, some, List, [], ◌∷◌, ◌++◌,
  ◌==◌, any, select, length, arith, Bool-cases,
}
use iuh_exchange_be.Base.Result.{ok}
use iuh_exchange_be.Orders.Model.{ObjectId}
use iuh_exchange_be.Products.Saga.{
  available, Product, Clock, Shelf, Event, product_updated, product_reserve_expired, find_product,
  save_product, put, tell, settle, is_expired, is_reserved, tell_expired, release_one, release_all,
  and_then, count_released, release_expired_reservations,
}
use iuh_exchange_be.Products.Saga.Laws.{products-tell}

-- Whether a list has a product with the id.
abbrev has_id : ObjectId → List Product → Bool
has_id id ps = any (λ p. p.id == id) ps

-- Every product that is found and expired is still on the list to be released.
abbrev Covers : ℕ → List Product → List Product → Type 0
Covers now todo ps =
    (id : ObjectId) (p : Product)
    → find_product id ps ≡ some p
    → is_expired now p ≡ true
    → has_id id todo ≡ true

select-Covers : (now : ℕ) (ps : List Product) → Covers now (select (is_expired now) ps) ps
unfolding find_product
select-Covers now [] id p found late = cc
select-Covers now (x ∷ ps) id p found late = ground (arith, select-Covers now ps id p)

find_product-saved :
    (id : ObjectId) (p' x : Product) (ps : List Product)
    → find_product id (save_product p' ps) ≡ some x
    → (x ≡ p') ⊎ ((find_product id ps ≡ some x) × ((p'.id == id) ≡ false))
unfolding find_product save_product
find_product-saved id p' x [] h = cc
find_product-saved id p' x (y ∷ ps) h = ground (arith, find_product-saved id p' x ps)

settled_kept : (now : ℕ) (p : Product) → is_expired now (settle available p) ≡ false
unfolding is_expired is_reserved settle
settled_kept now p = refl

put-Covers :
    (now : ℕ) (q : Product) (todo ps : List Product)
    → Covers now (q ∷ todo) ps
    → Covers now todo (save_product (settle available q) ps)
unfolding settle
put-Covers now q todo ps h id x found late =
    elim (find_product-saved id (settle available q) x ps found) [
      | inl same ↦ let no = ap (is_expired now) same ∙ settled_kept now q in cc
      | inr kept ↦ let later = h id x kept.0 late in ground (arith, later, kept.1)
    ]

tell_expired_ok :
    (c : Clock) (q : Product) (order : Option ObjectId) (s : Shelf)
    → ((e : Event) → c.broker e ≡ true)
    → (s' : Shelf) × (tell_expired c q order s ≡ (ok tt, s')) × (s'.products ≡ s.products)
unfolding tell_expired
tell_expired_ok c q none s up = (s, refl, refl)
tell_expired_ok c q (some order) s up = (
  record s { published = s.published ++ (product_reserve_expired order q.id ∷ []) },
  rw (up (product_reserve_expired order q.id)) refl,
  refl,
)

release_one_ok :
    (c : Clock) (q : Product) (s : Shelf)
    → ((e : Event) → c.broker e ≡ true)
    → (s' : Shelf) × (release_one c q s ≡ (ok tt, s'))
      × (s'.products ≡ save_product (settle available q) s.products)
unfolding release_one put
release_one_ok c q s up =
    let s₁ = put (settle available q) s in
    let (s', told, same) =
      tell_expired_ok c q q.reserved_order_id (tell c (product_updated q.id available) s₁) up in
    (s', told, same ∙ products-tell c (product_updated q.id available) s₁)

release_all-Covers :
    (c : Clock) (todo : List Product) (s : Shelf)
    → ((e : Event) → c.broker e ≡ true)
    → Covers c.now todo s.products
    → (s' : Shelf) × (release_all c todo s ≡ (ok tt, s')) × Covers c.now [] s'.products
unfolding release_all and_then
release_all-Covers c [] s up h = (s, refl, h)
release_all-Covers c (q ∷ todo) s up h =
    let (s₁, ran, after) = release_one_ok c q s up in
    let (s', rest, done) =
      release_all-Covers c todo s₁ up (rw after (put-Covers c.now q todo s.products h)) in
    (s', ap (λ r. and_then r (λ t. release_all c todo t)) ran ∙ rest, done)

none_left :
    (now : ℕ) (p : Product) → (is_expired now p ≡ true → false ≡ true) → is_expired now p ≡ false
none_left now p h = elim (Bool-cases (is_expired now p)) [
  | inl late ↦ cc (h late)
  | inr kept ↦ kept
]

-- While the broker takes every event, the sweep succeeds, counts the reservations that had expired,
-- and leaves no product whose reservation has expired.
pub sweep_complete :
    (c : Clock) (s : Shelf)
    → ((e : Event) → c.broker e ≡ true)
    → (s' : Shelf) × (release_expired_reservations c s
        ≡ (ok (length (select (is_expired c.now) s.products)), s'))
      × ((id : ObjectId) (p : Product)
          → find_product id s'.products ≡ some p
          → is_expired c.now p ≡ false)
unfolding release_expired_reservations count_released
sweep_complete c s up =
    let todo = select (is_expired c.now) s.products in
    let (s', ran, done) = release_all-Covers c todo s up (select-Covers c.now s.products) in
    (s', ap (count_released (length todo)) ran, λ id p found. none_left c.now p (done id p found))
