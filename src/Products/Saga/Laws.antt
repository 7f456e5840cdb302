-- ===== src/Products/Saga/Laws.antt =====
-- The exclusiveness of reservations.
use iuh_exchange_be.Base.{
  ◌≡◌, ◌≢◌, refl, ap, ◌∙◌, true, false, Option, none, some, List, [], ◌∷◌, arith, Bool-cases, inl,
  inr, ◌&&◌, ◌+◌, ◌*◌,
}
use iuh_exchange_be.Orders.Model.{ObjectId}
use iuh_exchange_be.Products.Saga.{
  ProductStatus, available, reserved, sold, is_held, is_available, is_sold, is_for, Product, Clock,
  Shelf, Event, product_reserved, product_updated, find_product, save_product, put, tell, reserve,
  reserve_found, answer_created, handle_order_created, settle, handle_order_completed, may_release,
  release_found, handle_order_cancelled,
}

pub products-tell : (c : Clock) (e : Event) (s : Shelf) → (tell c e s).products ≡ s.products
unfolding tell
products-tell c e s = ground arith

held-unavailable : (t : ProductStatus) → is_held t ≡ true → is_available t ≡ false
unfolding is_held is_available
held-unavailable available h = cc
held-unavailable ProductStatus.pending_approval h = refl
held-unavailable reserved h = refl
held-unavailable ProductStatus.pending h = refl
held-unavailable sold h = refl
held-unavailable ProductStatus.hidden h = refl
held-unavailable ProductStatus.rejected h = refl

reserve_found_held :
    (c : Clock) (order product buyer : ObjectId) (s : Shelf) (p : Product)
    → is_held p.status ≡ true
    → (reserve_found c order product buyer s (some p)).products ≡ s.products
unfolding reserve_found
reserve_found_held c order product buyer s p held =
    rw (held-unavailable p.status held) (products-tell c _ s)

answer_created_held :
    (c : Clock) (order product buyer : ObjectId) (seen : Option Product) (s : Shelf) (p : Product)
    → find_product product s.products ≡ some p
    → is_held p.status ≡ true
    → (answer_created c order product buyer seen s).products ≡ s.products
unfolding answer_created
answer_created_held c order product buyer none s p found held = products-tell c _ s
answer_created_held c order product buyer (some q) s p found held =
    elim (Bool-cases (is_held q.status && is_for order q.reserved_order_id)) [
      | inl again ↦ rw again (products-tell c _ s)
      | inr new ↦ elim (Bool-cases (is_available q.status)) [
        | inl free ↦ rw (new, free, found) (reserve_found_held c order product buyer s p held)
        | inr taken ↦ rw (new, taken) (products-tell c _ s)
      ]
    ]

release_found_other :
    (c : Clock) (order holder : ObjectId) (s : Shelf) (p : Product)
    → p.reserved_order_id ≡ some holder
    → holder ≢ order
    → release_found c order s (some p) ≡ s
unfolding release_found may_release is_for
release_found_other c order holder s p by other = ground arith

-- A product that is held is not reserved again, whatever the handler had read before: a message of
-- a new order leaves all products as they are, and so does the cancellation of any order but the
-- one that holds it.
pub held_by_other :
    (c : Clock) (order holder product buyer : ObjectId) (seen : Option Product) (s : Shelf)
    (p : Product)
    → find_product product s.products ≡ some p
    → is_held p.status ≡ true
    → p.reserved_order_id ≡ some holder
    → holder ≢ order
    → ((answer_created c order product buyer seen s).products ≡ s.products)
      × ((handle_order_cancelled c order (some product) s).products ≡ s.products)
unfolding handle_order_cancelled
held_by_other c order holder product buyer seen s p found held by other = (
  answer_created_held c order product buyer seen s p found held,
  rw found (ap (λ (t : Shelf). t.products) (release_found_other c order holder s p by other)),
)

find_product-id :
    (id : ObjectId) (ps : List Product) (p : Product) → find_product id ps ≡ some p → p.id ≡ id
unfolding find_product
find_product-id id [] p h = cc
find_product-id id (x ∷ ps) p h = ground (arith, find_product-id id ps p)

find_product-save :
    (id : ObjectId) (p' : Product) (ps : List Product) (p : Product)
    → find_product id ps ≡ some p
    → p'.id ≡ id
    → find_product id (save_product p' ps) ≡ some p'
unfolding find_product save_product
find_product-save id p' [] p h e = cc
find_product-save id p' (x ∷ ps) p h e = ground (arith, find_product-save id p' ps p)

find_told_put :
    (c : Clock) (e : Event) (id : ObjectId) (p' : Product) (s : Shelf) (p : Product)
    → find_product id s.products ≡ some p
    → p'.id ≡ id
    → find_product id (tell c e (put p' s)).products ≡ some p'
unfolding put
find_told_put c e id p' s p found same =
    ap (find_product id) (products-tell c e (put p' s))
    ∙ find_product-save id p' s.products p found same

available-not_held : (t : ProductStatus) → is_available t ≡ true → is_held t ≡ false
unfolding is_held is_available
available-not_held available h = refl
available-not_held ProductStatus.pending_approval h = refl
available-not_held reserved h = cc
available-not_held ProductStatus.pending h = cc
available-not_held sold h = refl
available-not_held ProductStatus.hidden h = refl
available-not_held ProductStatus.rejected h = refl

reserve-held :
    (c : Clock) (order buyer : ObjectId) (p : Product)
    → is_held (reserve c order buyer p).status ≡ true
unfolding reserve is_held
reserve-held c order buyer p = refl

reserve_wins :
    (c : Clock) (order product buyer : ObjectId) (s : Shelf) (p : Product)
    → find_product product s.products ≡ some p
    → is_available p.status ≡ true
    → find_product product
        (answer_created c order product buyer (find_product product s.products) s).products
      ≡ some (reserve c order buyer p)
unfolding answer_created reserve_found
reserve_wins c order product buyer s p found free =
    rw (found, available-not_held p.status free, free, found, free)
      (ap (find_product product) (
          products-tell c (product_reserved order product)
            (tell c (product_updated product reserved) (put (reserve c order buyer p) s)))
        ∙ find_told_put c (product_updated product reserved) product (reserve c order buyer p) s p
            found (find_product-id product s.products p found))

sell_reserved :
    (c : Clock) (order product : ObjectId) (s : Shelf) (p : Product)
    → find_product product s.products ≡ some p
    → is_sold p.status ≡ false
    → find_product product (handle_order_completed c order (some product) s).products
      ≡ some (settle sold p)
unfolding handle_order_completed
sell_reserved c order product s p found live = rw found (
    rw live (
      find_told_put c (product_updated p.id sold) product (settle sold p) s p found
        (find_product-id product s.products p found)))

release_sold :
    (c : Clock) (order product : ObjectId) (s : Shelf) (p : Product)
    → find_product product s.products ≡ some p
    → is_held p.status ≡ false
    → handle_order_cancelled c order (some product) s ≡ s
unfolding handle_order_cancelled release_found
release_sold c order product s p found free = rw found (rw free refl)

-- The message of a new order reserves an available product for it. Then the completion of any order
-- that names the product, of the one that holds it or of another, sells the product and clears every
-- field of the reservation, and the cancellation of any order, also of the one that held it, changes
-- nothing any more.
pub completion_ignores_holder :
    (c c' c'' : Clock) (holder order cancelled product buyer : ObjectId) (s : Shelf) (p : Product)
    → find_product product s.products ≡ some p
    → is_available p.status ≡ true
    → let held = handle_order_created c holder product buyer s in
      let done = handle_order_completed c' order (some product) held in
      (find_product product done.products
        ≡ some (record p {
          status = sold;
          reserved_order_id = none;
          reserved_by = none;
          reserved_at = none;
          reservation_expires_at = none;
        }))
      × (handle_order_cancelled c'' cancelled (some product) done ≡ done)
unfolding handle_order_created reserve settle is_sold is_held
completion_ignores_holder c c' c'' holder order cancelled product buyer s p found free =
    let held = handle_order_created c holder product buyer s in
    let wins = reserve_wins c holder product buyer s p found free in
    let sells = sell_reserved c' order product held (reserve c holder buyer p) wins refl in
    (
      sells,
      release_sold c'' cancelled product (handle_order_completed c' order (some product) held)
          (settle sold (reserve c holder buyer p)) sells refl,
    )

-- The message of a new order reserves an available product for it and its buyer, from the time of the
-- message for the configured minutes; the message of a new order that comes next, the same again or of another order, changes no product.
pub reserve_once :
    (c : Clock) (order product buyer : ObjectId) (s : Shelf) (p : Product)
    → find_product product s.products ≡ some p
    → is_available p.status ≡ true
    → (find_product product (handle_order_created c order product buyer s).products
        ≡ some (record p {
          status = reserved;
          reserved_order_id = some order;
          reserved_by = some buyer;
          reserved_at = some c.now;
          reservation_expires_at = some (c.now + c.ttl_minutes * 60 * 1000);
        }))
      × ((c' : Clock) (order' buyer' : ObjectId)
          → (handle_order_created c' order' product buyer'
              (handle_order_created c order product buyer s)).products
            ≡ (handle_order_created c order product buyer s).products)
unfolding handle_order_created reserve
reserve_once c order product buyer s p found free =
    let wins = reserve_wins c order product buyer s p found free in
    (
      wins,
      λ c' order' buyer'.
          answer_created_held c' order' product buyer' _ _ _ wins (reserve-held c order buyer p),
    )
