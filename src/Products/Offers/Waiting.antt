-- ===== src/Products/Offers/Waiting.antt =====
-- How many offers of one buyer for one product are pending.
use iuh_exchange_be.Base.{
  length, ◌+◌, ◌≤◌, ℕ, Bool, ◌≡◌, refl, false, List, [], ◌∷◌, ◌++◌, ◌==◌, if◌then◌else◌, arith,
  Bool-cases, inl, inr, select,
}
use iuh_exchange_be.Orders.Model.{ObjectId}
use iuh_exchange_be.Products.Offers.Document.{is_pending, Offer, save_offer, update_many}
use iuh_exchange_be.Products.Offers.Handlers.{is_pending_of}

-- How many offers of a buyer for a product are pending.
abbrev pub waiting : ObjectId → ObjectId → List Offer → ℕ
waiting product buyer os = length (select (is_pending_of product buyer) os)

pub off-waiting :
    (p b : ObjectId) (y : Offer) → is_pending y.status ≡ false → is_pending_of p b y ≡ false
unfolding is_pending_of
off-waiting p b y off = ground arith

fewer :
    (p b : ObjectId) (x : Offer) (os : List Offer) (n : ℕ)
    → n ≤ waiting p b os
    → n ≤ waiting p b (x ∷ os)
fewer p b x os n h = ground (arith, h)

pub waiting-update :
    (p b : ObjectId) (filter : Offer → Bool) (change : Offer → Offer) (os : List Offer)
    → ((x : Offer) → is_pending (change x).status ≡ false)
    → waiting p b (update_many filter change os) ≤ waiting p b os
unfolding update_many
waiting-update p b filter change [] off = omega arith
waiting-update p b filter change (x ∷ os) off =
    let rest = waiting-update p b filter change os off in
    elim (Bool-cases (filter x)) [
      | inl hit ↦
          rw (hit, off-waiting p b (change x) (off x))
            (fewer p b x os (waiting p b (update_many filter change os)) rest)
      | inr miss ↦ rw miss (ground (arith, rest))
    ]

pub waiting-save :
    (p b : ObjectId) (y : Offer) (os : List Offer)
    → is_pending y.status ≡ false
    → waiting p b (save_offer y os) ≤ waiting p b os
unfolding save_offer
waiting-save p b y [] off = omega arith
waiting-save p b y (x ∷ os) off =
    let rest = waiting-save p b y os off in
    elim (Bool-cases (x.id == y.id)) [
      | inl hit ↦
          rw (hit, off-waiting p b y off) (fewer p b x os (waiting p b (save_offer y os)) rest)
      | inr miss ↦ rw miss (ground (arith, rest))
    ]

pub waiting-append :
    (p b : ObjectId) (os : List Offer) (y : Offer)
    → waiting p b (os ++ (y ∷ [])) ≡ waiting p b os + (if is_pending_of p b y then 1 else 0)
waiting-append p b [] y = ground arith
waiting-append p b (x ∷ os) y = ground (arith, waiting-append p b os y)

-- After the earlier offers of the buyer are withdrawn none of them is pending.
pub waiting-withdrawn :
    (p b : ObjectId) (change : Offer → Offer) (os : List Offer)
    → ((x : Offer) → is_pending (change x).status ≡ false)
    → waiting p b (update_many (is_pending_of p b) change os) ≡ 0
unfolding update_many
waiting-withdrawn p b change [] off = refl
waiting-withdrawn p b change (x ∷ os) off = elim (Bool-cases (is_pending_of p b x)) [
  | inl hit ↦ rw (hit, off-waiting p b (change x) (off x)) (waiting-withdrawn p b change os off)
  | inr miss ↦ rw (miss, miss) (waiting-withdrawn p b change os off)
]
