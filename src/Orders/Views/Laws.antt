-- ===== src/Orders/Views/Laws.antt =====
-- The pages of `getOrders` and `getAdminOrders`.
use iuh_exchange_be.Base.{
  ℕ, zero, suc, ◌+◌, ◌*◌, ◌-◌, ◌/◌, ◌↔◌, ◌≤◌, ◌<◌, ◌≡◌, refl, ap, sym, ◌∙◌, List, [], ◌∷◌, ◌++◌,
  leb, length, take, drop, select, arith,
}
use native.Mathlib.Nat.{div-lt_iff_lt-mul, div-add-mod', mod-lt}
use iuh_exchange_be.Orders.Model.{ObjectId, Order}
use iuh_exchange_be.Orders.Store.{World}
use iuh_exchange_be.Orders.Views.{
  Page, ceil_div, OrderQuery, AdminQuery, matches_admin, get_admin_orders, page_of, get_orders,
  matches,
}

take-same {ℓ} : {A : Type ℓ} (m n : ℕ) (xs : List A) → m ≡ n → take m xs ≡ take n xs
take-same m n xs e = ap (λ k. take k xs) e

take-nil {ℓ} : {A : Type ℓ} (n : ℕ) → take {A = A} n [] ≡ []
take-nil zero = refl
take-nil (suc n) = refl

take-add {ℓ} :
    {A : Type ℓ} (m n : ℕ) (xs : List A) → take (m + n) xs ≡ take m xs ++ take n (drop m xs)
take-add zero n xs = take-same (0 + n) n xs (omega arith)
take-add (suc m) n [] = take-nil (suc m + n) ∙ sym (take-nil n)
take-add (suc m) n (x ∷ xs) =
    take-same (suc m + n) (suc (m + n)) (x ∷ xs) (omega arith) ∙ ap (λ l. x ∷ l) (take-add m n xs)

take-all {ℓ} : {A : Type ℓ} (n : ℕ) (xs : List A) → length xs ≤ n → take n xs ≡ xs
take-all n [] h = take-nil n
take-all zero (x ∷ xs) h = absurd (omega (arith, h))
take-all (suc n) (x ∷ xs) h = ap (λ l. x ∷ l) (take-all n xs (omega (arith, h)))

ceil_div-covers : (n size : ℕ) → 0 < size → n ≤ ceil_div n size * size
unfolding ceil_div
ceil_div-covers n size p = omega (arith, div-add-mod' (n + size - 1) size, mod-lt (n + size - 1) p)

-- The first `n` pages, one after the other.
abbrev pub pages : ℕ → (ℕ → Page Order) → List Order
pages zero f = []
pages (suc n) f = pages n f ++ (f (suc n)).content

page_of-content :
    (n size : ℕ) (found : List Order)
    → (page_of (suc n) size found).content ≡ take size (drop (n * size) found)
unfolding page_of
page_of-content n size found = ap (λ k. take size (drop (k * size) found)) (omega arith)

pages-take :
    (n size : ℕ) (found : List Order) → pages n (λ p. page_of p size found) ≡ take (n * size) found
pages-take zero size found = take-same 0 (0 * size) found (omega arith)
pages-take (suc n) size found =
    ap (λ l. l ++ (page_of (suc n) size found).content) (pages-take n size found)
    ∙ ap (λ l. take (n * size) found ++ l) (page_of-content n size found)
    ∙ sym (take-add (n * size) size found)
    ∙ take-same (n * size + size) (suc n * size) found (omega arith)

-- For a size that is not 0, the pages from 1 to `totalPages` of a user's orders, one after the
-- other, are all the orders that match, each once and in the store's order.
pub get_orders_complete :
    (user : ObjectId) (q : OrderQuery) (size : ℕ) (w : World)
    → 0 < size
    → pages (get_orders user q 1 size w).total_pages (λ p. get_orders user q p size w)
      ≡ select (matches user q) w.orders
unfolding get_orders page_of
get_orders_complete user q size w p =
    let found = select (matches user q) w.orders in
    pages-take (ceil_div (length found) size) size found
    ∙ take-all (ceil_div (length found) size * size) found (ceil_div-covers (length found) size p)

leb-ceil_div : (n page size : ℕ) → 0 < size → leb (ceil_div n size) page ≡ leb n (page * size)
unfolding ceil_div
leb-ceil_div n page size p =
    let iff : ((n + size - 1) / size < suc page) ↔ (n + size - 1 < suc page * size) =
      div-lt_iff_lt-mul p in
    ground (arith, iff, p)

-- For a size that is not 0, the admins' listing of orders is the page of the same orders that
-- `getOrders` would make, though it computes by another formula which page is the last.
pub get_admin_orders_page :
    (q : AdminQuery) (page size : ℕ) (w : World)
    → 0 < size
    → get_admin_orders q page size w ≡ page_of page size (select (matches_admin q) w.orders)
unfolding get_admin_orders page_of
get_admin_orders_page q page size w p =
    rw (leb-ceil_div (length (select (matches_admin q) w.orders)) page size p) refl
