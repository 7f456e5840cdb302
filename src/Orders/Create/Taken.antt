-- ===== src/Orders/Create/Taken.antt =====
-- What keeps an idempotency key standing for an order.
use iuh_exchange_be.Base.{
  ap, sym, String, ◌≡◌, ◌≢◌, refl, true, false, Option, none, some, List, [], ◌∷◌, ◌∙◌, Bool-cases,
  inl, inr, ◌==◌, ==_iff,
}
use iuh_exchange_be.Base.Text.{str_eq, eq_iff}
use iuh_exchange_be.Base.Result.{Result, ok, err}
use iuh_exchange_be.Orders.Model.{ObjectId, Order}
use iuh_exchange_be.Orders.Store.{Reservation, placed, find_by_id, upsert, attempt}
use iuh_exchange_be.Orders.Store.Laws.{written, find_by_id-upsert_self, find_by_id-upsert_ne}
use iuh_exchange_be.Orders.Create.{redis_get, redis_set, redis_del, find_by_key}
use iuh_exchange_be.Orders.Create.Identity.{SameIdentity}

pub redis_get-set_other :
    (k j : String) (v : Reservation) (m : List (String × Reservation))
    → str_eq j k ≡ false
    → redis_get k (redis_set j v m) ≡ redis_get k m
unfolding redis_get redis_set
redis_get-set_other k j v [] off = rw off refl
redis_get-set_other k j v ((i, u) ∷ m) off = elim (Bool-cases (str_eq i j)) [
  | inl same ↦
      let apart = ap (λ t. str_eq t k) ((eq_iff i j).0 same) ∙ off in rw (same, off, apart) refl
  | inr differs ↦ rw (differs, redis_get-set_other k j v m off) refl
]

pub redis_get-del_other :
    (k j : String) (m : List (String × Reservation))
    → str_eq j k ≡ false
    → redis_get k (redis_del j m) ≡ redis_get k m
unfolding redis_get redis_del
redis_get-del_other k j [] off = refl
redis_get-del_other k j ((i, u) ∷ m) off = elim (Bool-cases (str_eq i j)) [
  | inl same ↦
      let apart = ap (λ t. str_eq t k) ((eq_iff i j).0 same) ∙ off in
      rw (same, apart, redis_get-del_other k j m off) refl
  | inr differs ↦ rw (differs, redis_get-del_other k j m off) refl
]

some_injective : (a b : Order) → some a ≡ some b → a ≡ b
some_injective a b e = cc

pub found_id : (id : ObjectId) (os : List Order) (o : Order) → find_by_id id os ≡ some o → o.id ≡ id
unfolding find_by_id
found_id id [] o e = cc
found_id id (x ∷ xs) o e = elim (Bool-cases (x.id == id)) [
  | inl hit ↦
      ap (λ (y : Order). y.id) (sym (some_injective x o (rw hit at e))) ∙ (==_iff x.id id).0 hit
  | inr miss ↦ found_id id xs o (rw miss at e)
]

found_key :
    (key : String) (os : List Order) (o : Order)
    → find_by_key key os ≡ some o
    → str_eq o.idempotency_key key ≡ true
unfolding find_by_key
found_key key [] o e = cc
found_key key (x ∷ xs) o e = elim (Bool-cases (str_eq x.idempotency_key key)) [
  | inl hit ↦
      ap (λ (y : Order). str_eq y.idempotency_key key) (sym (some_injective x o (rw hit at e)))
      ∙ hit
  | inr miss ↦ found_key key xs o (rw miss at e)
]

-- The order `u` of another id is saved as `z`: the key still finds `x`.
by_key_other :
    (key : String) (x u z : Order) (os : List Order)
    → find_by_id u.id os ≡ some u
    → find_by_key key os ≡ some x
    → (x.id == u.id) ≡ false
    → z.id ≡ u.id
    → z.idempotency_key ≡ u.idempotency_key
    → find_by_key key (upsert z os) ≡ some x
unfolding find_by_id find_by_key upsert
by_key_other key x u z [] at_id at_key apart same same_key = cc
by_key_other key x u z (y ∷ ys) at_id at_key apart same same_key =
    elim (Bool-cases (y.id == u.id)) [
      | inl hit ↦
          let is_u = some_injective y u (rw hit at at_id) in
          elim (Bool-cases (str_eq y.idempotency_key key)) [
            | inl found ↦
                let is_x = some_injective y x (rw found at at_key) in
                cc (apart, ap (λ (o : Order). o.id == u.id) (sym is_x) ∙ hit)
            | inr lost ↦
                let z_lost =
                  ap (λ k. str_eq k key)
                    (same_key ∙ ap (λ (o : Order). o.idempotency_key) (sym is_u))
                  ∙ lost in
                rw (ap (λ i. y.id == i) same ∙ hit) (rw z_lost (rw lost at at_key))
          ]
      | inr miss ↦
          rw (ap (λ i. y.id == i) same ∙ miss) (elim (Bool-cases (str_eq y.idempotency_key key)) [
            | inl found ↦ rw found (rw found at at_key)
            | inr lost ↦ rw lost (
                by_key_other key x u z ys (rw miss at at_id) (rw lost at at_key) apart same
                  same_key)
          ])
    ]

-- The order that the key finds is saved as `z`, with its key.
by_key_self :
    (key : String) (x z : Order) (os : List Order)
    → find_by_id x.id os ≡ some x
    → find_by_key key os ≡ some x
    → z.id ≡ x.id
    → z.idempotency_key ≡ x.idempotency_key
    → find_by_key key (upsert z os) ≡ some z
unfolding find_by_id find_by_key upsert
by_key_self key x z [] at_id at_key same same_key = cc
by_key_self key x z (y ∷ ys) at_id at_key same same_key =
    let key_found = found_key key (y ∷ ys) x at_key in
    elim (Bool-cases (str_eq y.idempotency_key key)) [
      | inl found ↦
          let is_x = some_injective y x (rw found at at_key) in
          let hit = ap (λ (o : Order). o.id == z.id) is_x ∙ (==_iff x.id z.id).1 (sym same) in
          let z_found =
            ap (λ k. str_eq k key) (same_key ∙ ap (λ (o : Order). o.idempotency_key) (sym is_x))
            ∙ found in
          rw hit (rw z_found refl)
      | inr lost ↦ elim (Bool-cases (y.id == x.id)) [
        | inl hit ↦
            let is_x = some_injective y x (rw hit at at_id) in
            cc (key_found, ap (λ (o : Order). str_eq o.idempotency_key key) (sym is_x) ∙ lost)
        | inr miss ↦
            rw (ap (λ i. y.id == i) same ∙ miss) (
              rw lost (by_key_self key x z ys (rw miss at at_id) (rw lost at at_key) same same_key))
      ]
    ]

other_id : (id i j k : ObjectId) → i ≡ id → k ≡ j → (i == j) ≡ false → id ≢ k
other_id id i j k e e' apart same = cc (apart, (==_iff i j).1 (e ∙ same ∙ e'))

-- The key stands for an order of the id, in Redis and in the table.
pub record IsTaken (key : String) (id : ObjectId) (m : List (String × Reservation))
    (os : List Order) : Type 0 where
  pub order : Order
  pub of_id : order.id ≡ id
  pub held : redis_get key m ≡ some (placed id)
  pub by_id : find_by_id id os ≡ some order
  pub by_key : find_by_key key os ≡ some order

module _ (key : String) (id : ObjectId) (m : List (String × Reservation)) (os : List Order)
    (h : IsTaken key id m os) where
  -- An order of the table is saved with its id and key.
  pub upsert-IsTaken :
      (i : ObjectId) (u z : Order)
      → find_by_id i os ≡ some u
      → SameIdentity u z
      → IsTaken key id m (upsert z os)
  upsert-IsTaken i u z at_i s =
      let at_u = ap (λ j. find_by_id j os) (found_id i os u at_i) ∙ at_i in
      let at_x = ap (λ j. find_by_id j os) h.of_id ∙ h.by_id in
      elim (Bool-cases (h.order.id == u.id)) [
        | inl hit ↦
            let same = (==_iff h.order.id u.id).0 hit in
            let is_x =
              some_injective u h.order (sym at_u ∙ ap (λ j. find_by_id j os) (sym same) ∙ at_x) in
            let z_id : z.id ≡ h.order.id = s.id ∙ sym same in
            let z_key : z.idempotency_key ≡ h.order.idempotency_key =
              s.key ∙ ap (λ (o : Order). o.idempotency_key) is_x in
            record {
              order = z;
              of_id = z_id ∙ h.of_id;
              held = h.held;
              by_id =
                  ap (λ j. find_by_id j (upsert z os)) (sym (z_id ∙ h.of_id))
                  ∙ find_by_id-upsert_self z os;
              by_key = by_key_self key h.order z os at_x h.by_key z_id z_key;
            }
        | inr apart ↦ record {
          order = h.order;
          of_id = h.of_id;
          held = h.held;
          by_id =
              find_by_id-upsert_ne id z os (other_id id h.order.id u.id z.id h.of_id s.id apart)
              ∙ h.by_id;
          by_key = by_key_other key h.order u z os at_u h.by_key apart s.id s.key;
        }
      ]

  pub written-IsTaken :
      (i : ObjectId) (f : Order → Result Order)
      → ((o o' : Order) → f o ≡ ok o' → SameIdentity o o')
      → IsTaken key id m (written (attempt f (find_by_id i os)) os)
  unfolding attempt
  written-IsTaken i f keeps = split (find_by_id i os) refl
    where
      made :
          (u : Order)
          → find_by_id i os ≡ some u
          → (r : Result Order) → f u ≡ r
          → IsTaken key id m (written r os)
      made u e (err x) e' = h
      made u e (ok z) e' = upsert-IsTaken i u z e (keeps u z e')

      split :
          (found : Option Order)
          → find_by_id i os ≡ found
          → IsTaken key id m (written (attempt f found) os)
      split none e = h
      split (some u) e = made u e (f u) refl
