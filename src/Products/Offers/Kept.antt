-- ===== src/Products/Offers/Kept.antt =====
-- Tables that have a resolved offer as it is.
use iuh_exchange_be.Base.{
  Bool, ◌≡◌, refl, ap, ◌∙◌, sym, true, false, some, List, [], ◌∷◌, ◌++◌, ◌==◌, ◌&&◌, if◌then◌else◌,
  arith, Bool-cases, Option-cases, leb, inl, inr, All, ==_iff,
}
use iuh_exchange_be.Base.Text.{trim}
use iuh_exchange_be.Orders.Model.{ObjectId}
use iuh_exchange_be.Products.Offers.Document.{
  is_pending, Offer, OfferEvent, Env, Market, Action, accept, reject, counter, unknown, find_offer,
  save_offer, update_many, put_offer, resolve_as, is_due, save_expired, expire_if_needed,
  publish_offer, price_of, units, expired, by_system,
}
use iuh_exchange_be.Products.Offers.Handlers.{decide}

pub some_injective : (x y : Offer) → some x ≡ some y → x ≡ y
some_injective x y e = cc

first_true : (a b : Bool) → (a && b) ≡ true → a ≡ true
first_true true b h = refl
first_true false b h = cc

-- What a decision makes of an offer has its id, and is not pending.
pub decide_resolved :
    (e : Env) (user : ObjectId) (action : Action) (x z : Offer)
    → decide e user action x ≡ some z
    → (z.id ≡ x.id) × (is_pending z.status ≡ false)
unfolding decide resolve_as is_pending
decide_resolved e user accept x z h = rw (sym (some_injective _ z h)) (refl, refl)
decide_resolved e user reject x z h = rw (sym (some_injective _ z h)) (refl, refl)
decide_resolved e user (counter amount text) x z h = elim (Option-cases (price_of amount)) [
  | inl missing ↦ cc (rw (decide, missing) at h)
  | inr (n, given) ↦ elim (Bool-cases (leb (units (trim text)) 1000)) [
    | inl fits ↦ rw (sym (some_injective _ z (rw (decide, given, fits) at h))) (refl, refl)
    | inr long ↦ cc (rw (decide, given, long) at h)
  ]
]
decide_resolved e user unknown x z h = cc

module _ (o : Offer) (resolved : is_pending o.status ≡ false) where
  -- A row of the table that has the offer's id is the offer.
  unfoldable pub Agrees : Offer → Type 0
  Agrees x = (x.id == o.id) ≡ true → x ≡ o

  unfoldable pub Kept : List Offer → Type 0
  Kept os = (find_offer o.id os ≡ some o) × All Agrees os

  module _ (filter : Offer → Bool) (change : Offer → Offer)
      (skips : (x : Offer) → is_pending x.status ≡ false → filter x ≡ false)
      (same : (x : Offer) → (change x).id ≡ x.id) where
    skipped : (x : Offer) → x ≡ o → filter x ≡ false
    skipped x e = skips x (ap (λ (y : Offer). is_pending y.status) e ∙ resolved)

    kept_id : (x : Offer) → ((if filter x then change x else x).id == o.id) ≡ (x.id == o.id)
    kept_id x = elim (Bool-cases (filter x)) [
      | inl hit ↦ rw (hit, same x) refl
      | inr miss ↦ rw miss refl
    ]

    update-Agrees : (x : Offer) → Agrees x → Agrees (if filter x then change x else x)
    unfolding Agrees
    update-Agrees x agrees h = let e = agrees (sym (kept_id x) ∙ h) in rw (skipped x e) e

    update-all : (os : List Offer) → All Agrees os → All Agrees (update_many filter change os)
    unfolding update_many
    update-all [] h = tt
    update-all (x ∷ os) h = (update-Agrees x h.0, update-all os h.1)

    update-find :
        (os : List Offer)
        → All Agrees os
        → find_offer o.id os ≡ some o
        → find_offer o.id (update_many filter change os) ≡ some o
    unfolding update_many find_offer Agrees
    update-find [] all found = cc found
    update-find (x ∷ os) all found = elim (Bool-cases (x.id == o.id)) [
      | inl hit ↦ let e = all.0 hit in rw (kept_id x, hit, skipped x e) (ap some e)
      | inr miss ↦ rw (kept_id x, miss) (update-find os all.1 (rw miss at found))
    ]

  save-all :
      (y : Offer) → Agrees y → (os : List Offer) → All Agrees os → All Agrees (save_offer y os)
  unfolding save_offer
  save-all y agrees [] h = tt
  save-all y agrees (x ∷ os) h = elim (Bool-cases (x.id == y.id)) [
    | inl hit ↦ rw hit (agrees, save-all y agrees os h.1)
    | inr miss ↦ rw miss (h.0, save-all y agrees os h.1)
  ]

  save-find :
      (y : Offer)
      → Agrees y
      → (os : List Offer) → All Agrees os
      → find_offer o.id os ≡ some o
      → find_offer o.id (save_offer y os) ≡ some o
  unfolding save_offer find_offer Agrees
  save-find y agrees [] all found = cc found
  save-find y agrees (x ∷ os) all found = elim (Bool-cases (x.id == o.id)) [
    | inl hit ↦ elim (Bool-cases (x.id == y.id)) [
      | inl e ↦
          let mine = ap (λ n. n == o.id) (sym ((==_iff x.id y.id).0 e)) ∙ hit in
          rw (e, mine) (ap some (agrees mine))
      | inr n ↦ rw (n, hit) (ap some (all.0 hit))
    ]
    | inr miss ↦ elim (Bool-cases (x.id == y.id)) [
      | inl e ↦
          rw (e, ap (λ n. n == o.id) (sym ((==_iff x.id y.id).0 e)) ∙ miss)
            (save-find y agrees os all.1 (rw miss at found))
      | inr n ↦ rw (n, miss) (save-find y agrees os all.1 (rw miss at found))
    ]
  ]

  pub append-find :
      (y : Offer) (os : List Offer)
      → find_offer o.id os ≡ some o
      → find_offer o.id (os ++ (y ∷ [])) ≡ some o
  unfolding find_offer
  append-find y [] found = cc found
  append-find y (x ∷ os) found = ground (arith, append-find y os)

  same-Agrees : (x y : Offer) → some y ≡ some x → Agrees y → Agrees x
  unfolding Agrees
  same-Agrees x y e agrees h =
      let q = some_injective y x e in sym q ∙ agrees (ap (λ z. z.id == o.id) q ∙ h)

  pub find-Agrees :
      (id : ObjectId) (os : List Offer) (x : Offer)
      → All Agrees os
      → find_offer id os ≡ some x
      → Agrees x
  unfolding find_offer
  find-Agrees id [] x all found = cc found
  find-Agrees id (y ∷ os) x all found = elim (Bool-cases (y.id == id)) [
    | inl hit ↦ same-Agrees x y (rw hit at found) all.0
    | inr miss ↦ find-Agrees id os x all.1 (rw miss at found)
  ]

  pub other : (x : Offer) → Agrees x → is_pending x.status ≡ true → (x.id == o.id) ≡ false
  unfolding Agrees
  other x agrees waits = elim (Bool-cases (x.id == o.id)) [
    | inr miss ↦ miss
    | inl hit ↦ cc (sym waits ∙ ap (λ (y : Offer). is_pending y.status) (agrees hit) ∙ resolved)
  ]

  -- An offer with another id.
  pub other-Agrees : (y : Offer) → (y.id == o.id) ≡ false → Agrees y
  unfolding Agrees
  other-Agrees y miss h = cc (sym h ∙ miss)

  pub put-Kept : (y : Offer) (m : Market) → Agrees y → Kept m.offers → Kept (put_offer y m).offers
  unfolding put_offer Kept
  put-Kept y m agrees (found, all) =
      (save-find y agrees m.offers all found, save-all y agrees m.offers all)

  due-Agrees :
      (e : Env) (x : Offer)
      → Agrees x
      → is_due e x ≡ true
      → Agrees (resolve_as expired e by_system x)
  unfolding is_due resolve_as
  due-Agrees e x agrees due =
      other-Agrees (resolve_as expired e by_system x) (other x agrees (first_true _ _ due))

  pub save_expired-Kept :
      (e : Env) (x : Offer) (m : Market)
      → Agrees x
      → Kept m.offers
      → Kept (save_expired e x m).offers
  unfolding save_expired
  save_expired-Kept e x m agrees kept = elim (Bool-cases (is_due e x)) [
    | inl due ↦
        rw due (put-Kept (resolve_as expired e by_system x) m (due-Agrees e x agrees due) kept)
    | inr early ↦ rw early kept
  ]

  pub expire-Agrees : (e : Env) (x : Offer) → Agrees x → Agrees (expire_if_needed e x)
  unfolding expire_if_needed
  expire-Agrees e x agrees = elim (Bool-cases (is_due e x)) [
    | inl due ↦ rw due (due-Agrees e x agrees due)
    | inr early ↦ rw early agrees
  ]

  pub publish_offer-Kept :
      {A : Type 0} (e : Env) (event : OfferEvent) (a : A) (m : Market)
      → Kept m.offers
      → Kept (publish_offer e event a m).1.offers
  unfolding publish_offer
  publish_offer-Kept e event a m kept = elim (Bool-cases (e.broker event)) [
    | inl up ↦ rw up kept
    | inr down ↦ rw down kept
  ]

  pub update-Kept :
      (filter : Offer → Bool) (change : Offer → Offer) (os : List Offer)
      → ((x : Offer) → is_pending x.status ≡ false → filter x ≡ false)
      → ((x : Offer) → (change x).id ≡ x.id)
      → Kept os
      → Kept (update_many filter change os)
  unfolding Kept
  update-Kept filter change os skips same (found, all) = (
    update-find filter change skips same os all found,
    update-all filter change skips same os all,
  )
