-- ===== src/Products/Offers/Fewer.antt =====
-- The requests that leave no more offers pending than there were.
use iuh_exchange_be.Base.{
  ◌≤◌, ℕ, ◌≡◌, refl, false, Option, some, none, List, [], ◌∷◌, ◌==◌, arith, Bool-cases, inl, inr,
}
use iuh_exchange_be.Orders.Model.{ObjectId}
use iuh_exchange_be.Products.Saga.{Product}
use iuh_exchange_be.Products.Offers.Document.{
  is_pending, is_accepted, Offer, OfferEvent, Env, Market, Action, by_user, put_offer, resolve_as,
  is_due, save_expired, expire_if_needed, publish_offer, expired, withdrawn, rejected, by_system,
}
use iuh_exchange_be.Products.Offers.Handlers.{
  decide, is_rival, reject_rivals, save_decision, resolve_current, resolve_found, withdraw_found,
}
use iuh_exchange_be.Products.Offers.Reads.{expire_each, listed_offers, list_offers, list_for_seller}
use iuh_exchange_be.Products.Offers.Kept.{decide_resolved}
use iuh_exchange_be.Products.Offers.Document.{Resolver, offer_resolved}
use iuh_exchange_be.Products.Offers.Waiting.{waiting, waiting-update, waiting-save}

-- No more offers are pending, of any buyer for any product.
abbrev pub Fewer : Market → Market → Type 0
Fewer m n = (p b : ObjectId) → waiting p b n.offers ≤ waiting p b m.offers

pub off_expired :
    (e : Env) (by : Resolver) (x : Offer) → is_pending (resolve_as expired e by x).status ≡ false
unfolding resolve_as is_pending
off_expired e by x = refl

pub off_rejected :
    (e : Env) (by : Resolver) (x : Offer) → is_pending (resolve_as rejected e by x).status ≡ false
unfolding resolve_as is_pending
off_rejected e by x = refl

pub off_withdrawn :
    (e : Env) (by : Resolver) (x : Offer) → is_pending (resolve_as withdrawn e by x).status ≡ false
unfolding resolve_as is_pending
off_withdrawn e by x = refl

pub Fewer-put : (y : Offer) (m : Market) → is_pending y.status ≡ false → Fewer m (put_offer y m)
unfolding put_offer
Fewer-put y m off p b = waiting-save p b y m.offers off

pub Fewer-expired : (e : Env) (x : Offer) (m : Market) → Fewer m (save_expired e x m)
unfolding save_expired
Fewer-expired e x m = elim (Bool-cases (is_due e x)) [
  | inl due ↦ rw due (Fewer-put (resolve_as expired e by_system x) m (off_expired e by_system x))
  | inr early ↦ rw early (λ p b. omega arith)
]

pub Fewer-publish :
    {A : Type 0} (e : Env) (event : OfferEvent) (a : A) (m : Market)
    → Fewer m (publish_offer e event a m).1
unfolding publish_offer
Fewer-publish e event a m = elim (Bool-cases (e.broker event)) [
  | inl up ↦ rw up (λ p b. omega arith)
  | inr down ↦ rw down (λ p b. omega arith)
]

pub Fewer-rivals :
    (e : Env) (user : ObjectId) (y : Offer) (m : Market) → Fewer m (reject_rivals e user y m)
unfolding reject_rivals
Fewer-rivals e user y m = elim (Bool-cases (is_accepted y.status)) [
  | inl taken ↦ rw taken (λ p b.
      waiting-update p b (is_rival y) (resolve_as rejected e (by_user user)) m.offers
        (λ x. off_rejected e (by_user user) x))
  | inr no_rival ↦ rw no_rival (λ p b. omega arith)
]

pub Fewer-decision :
    (e : Env) (user : ObjectId) (y : Option Offer) (m : Market)
    → ((z : Offer) → y ≡ some z → is_pending z.status ≡ false)
    → Fewer m (save_decision e user y m).1
unfolding save_decision
Fewer-decision e user none m off p b = omega arith
Fewer-decision e user (some y) m off p b =
    let put = Fewer-put y m (off y refl) p b in
    let rivals = Fewer-rivals e user y (put_offer y m) p b in
    let told =
      Fewer-publish e (offer_resolved y.id y.status) y (reject_rivals e user y (put_offer y m)) p
        b in
    omega (arith, put, rivals, told)

pub Fewer-resolve :
    (e : Env) (user : ObjectId) (action : Action) (x : Offer) (m : Market)
    → Fewer m (resolve_current e user action x m).1
unfolding resolve_current
Fewer-resolve e user action x m = elim (Bool-cases (is_pending x.status)) [
  | inr done ↦ rw done (λ p b. omega arith)
  | inl waits ↦ elim (Bool-cases (x.seller_id == user)) [
    | inr stranger ↦ rw (waits, stranger) (λ p b. omega arith)
    | inl seller ↦
        rw (waits, seller)
          (Fewer-decision e user (decide e user action x) m
            (λ z made. (decide_resolved e user action x z made).1))
  ]
]

pub Fewer-withdraw :
    (e : Env) (user : ObjectId) (x : Option Offer) (m : Market)
    → Fewer m (withdraw_found e user x m).1
unfolding withdraw_found
Fewer-withdraw e user none m = λ p b. omega arith
Fewer-withdraw e user (some y) m = elim (Bool-cases (y.buyer_id == user)) [
  | inr stranger ↦ rw stranger (λ p b. omega arith)
  | inl mine ↦ elim (Bool-cases (is_pending y.status)) [
    | inr done ↦ rw (mine, done) (λ p b. omega arith)
    | inl waits ↦
        rw (mine, waits)
          (Fewer-put (resolve_as withdrawn e (by_user user) y) m (off_withdrawn e (by_user user) y))
  ]
]

pub Fewer-each : (e : Env) (os : List Offer) (m : Market) → Fewer m (expire_each e os m)
unfolding expire_each
Fewer-each e [] m p b = omega arith
Fewer-each e (x ∷ os) m p b =
    let first = Fewer-expired e x m p b in
    let rest = Fewer-each e os (save_expired e x m) p b in omega (arith, first, rest)

pub Fewer-found :
    (e : Env) (user : ObjectId) (action : Action) (x : Option Offer) (m : Market)
    → Fewer m (resolve_found e user action x m).1
unfolding resolve_found
Fewer-found e user action none m p b = omega arith
Fewer-found e user action (some x) m p b =
    let first = Fewer-expired e x m p b in
    let rest = Fewer-resolve e user action (expire_if_needed e x) (save_expired e x m) p b in
    omega (arith, first, rest)

pub Fewer-seller :
    (e : Env) (user product : ObjectId) (skip size : ℕ) (p : Option Product) (m : Market)
    → Fewer m (list_for_seller e user product skip size p m).1
unfolding list_for_seller list_offers
Fewer-seller e user product skip size none m = λ p b. omega arith
Fewer-seller e user product skip size (some q) m = elim (Bool-cases (q.seller_id == user)) [
  | inl mine ↦
      rw mine (Fewer-each e (listed_offers (λ x. x.product_id == product) skip size m.offers) m)
  | inr stranger ↦ rw stranger (λ p b. omega arith)
]
