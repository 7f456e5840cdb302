-- ===== src/Products/Tests.antt =====
-- Runs of the product side of the saga on concrete data.
use iuh_exchange_be.Base.{
  ◌+◌, ◌*◌, length, select, false, ◌≡◌, refl, true, none, some, [], ◌∷◌, arith,
}
use iuh_exchange_be.Base.Result.{ok}
use iuh_exchange_be.Orders.Model.{ObjectId, sell}
use iuh_exchange_be.Products.Saga.{
  reserved, Product, Clock, Shelf, available, sold, is_available, is_held, find_product, reserve,
  is_expired, release_expired_reservations, answer_created, handle_order_created,
  handle_order_completed, handle_order_cancelled,
}
use iuh_exchange_be.Products.Saga.Laws.{held_by_other, completion_ignores_holder, reserve_once}
use iuh_exchange_be.Products.Saga.Sweep.{sweep_complete}

abbrev clock : Clock
clock = record { now = 1000; ttl_minutes = 30; broker = λ e. true }

abbrev lamp : Product
lamp = record {
  id = 7;
  seller_id = 2;
  listing_type = sell;
  allow_offers = true;
  status = available;
  reserved_order_id = none;
  reserved_by = none;
  reserved_at = none;
  reservation_expires_at = none;
}

abbrev shelf : Shelf
shelf = record { products = lamp ∷ []; published = [] }

abbrev reserved_lamp : Product
reserved_lamp = reserve clock 5 1 lamp

abbrev reserved_shelf : Shelf
reserved_shelf = record { products = reserved_lamp ∷ []; published = [] }

lamp_found : find_product 7 shelf.products ≡ some lamp
unfolding find_product
lamp_found = refl

lamp_free : is_available lamp.status ≡ true
unfolding is_available
lamp_free = refl

reserved_lamp_found : find_product 7 reserved_shelf.products ≡ some reserved_lamp
unfolding find_product reserve
reserved_lamp_found = refl

reserved_lamp_held : is_held reserved_lamp.status ≡ true
unfolding is_held reserve
reserved_lamp_held = refl

reserved_lamp_order : reserved_lamp.reserved_order_id ≡ some 5
unfolding reserve
reserved_lamp_order = refl

reserve_once_example :
    (find_product 7 (handle_order_created clock 5 7 1 shelf).products
      ≡ some (record lamp {
        status = reserved;
        reserved_order_id = some 5;
        reserved_by = some 1;
        reserved_at = some clock.now;
        reservation_expires_at = some (clock.now + clock.ttl_minutes * 60 * 1000);
      }))
    × ((c' : Clock) (order' buyer' : ObjectId)
        → (handle_order_created c' order' 7 buyer'
            (handle_order_created clock 5 7 1 shelf)).products
          ≡ (handle_order_created clock 5 7 1 shelf).products)
reserve_once_example = reserve_once clock 5 7 1 shelf lamp lamp_found lamp_free

-- Order 6 read the product before order 5 reserved it.
held_by_other_example :
    ((answer_created clock 6 7 3 (some lamp) reserved_shelf).products ≡ reserved_shelf.products)
    × ((handle_order_cancelled clock 6 (some 7) reserved_shelf).products ≡ reserved_shelf.products)
held_by_other_example =
    held_by_other clock 6 5 7 3 (some lamp) reserved_shelf reserved_lamp reserved_lamp_found
      reserved_lamp_held reserved_lamp_order (omega arith)

-- Order 5 holds the lamp, order 6 is completed, and then order 5 is cancelled.
completion_ignores_holder_example :
    let held = handle_order_created clock 5 7 1 shelf in
    let done = handle_order_completed clock 6 (some 7) held in
    (find_product 7 done.products
      ≡ some (record lamp {
        status = sold;
        reserved_order_id = none;
        reserved_by = none;
        reserved_at = none;
        reservation_expires_at = none;
      }))
    × (handle_order_cancelled clock 5 (some 7) done ≡ done)
completion_ignores_holder_example =
    completion_ignores_holder clock clock clock 5 6 5 7 1 shelf lamp lamp_found lamp_free

-- Half an hour later.
abbrev later : Clock
later = record clock { now = 1801000 }

sweep_complete_example :
    (s' : Shelf) × (release_expired_reservations later reserved_shelf
      ≡ (ok (length (select (is_expired 1801000) reserved_shelf.products)), s'))
    × ((id : ObjectId) (p : Product)
        → find_product id s'.products ≡ some p
        → is_expired 1801000 p ≡ false)
sweep_complete_example = sweep_complete later reserved_shelf (λ e. refl)
