-- ===== src/Products/Offers/Steps.antt =====
-- What each request leaves of a resolved offer.
use iuh_exchange_be.Base.{
  ℕ, Bool, ◌≡◌, refl, ap, ◌∙◌, true, false, Option, some, none, List, [], ◌∷◌, ◌++◌, ◌==◌, ◌&&◌,
  ◌||◌, not, Bool-cases, inl, inr, All, All-append, All-select, All-reverse, All-drop, All-take,
}
use iuh_exchange_be.Orders.Model.{ObjectId}
use iuh_exchange_be.Products.Saga.{Product, is_available, find_product}
use iuh_exchange_be.Products.Offers.Document.{
  is_pending, is_accepted, Offer, Env, Market, Proposal, Action, by_user, find_offer, put_offer,
  resolve_as, save_expired, expire_if_needed, new_offer, fits_schema, withdrawn, rejected,
}
use iuh_exchange_be.Products.Offers.Handlers.{
  is_pending_of, withdraw_earlier, insert_offer, create_with, create_for, create_offer, check_terms,
  decide, is_rival, reject_rivals, save_decision, resolve_current, resolve_found, resolve_offer,
  withdraw_found, withdraw_offer,
}
use iuh_exchange_be.Products.Offers.Reads.{
  expire_each, listed_offers, list_offers, list_for_seller, list_product_offers, list_my_offers,
  Request, to_create, to_resolve, to_withdraw, to_list_product, to_list_mine, each_offer_request,
  run_requests,
}
use iuh_exchange_be.Products.Offers.Kept.{
  decide_resolved, Agrees, Kept, other, other-Agrees, put-Kept, save_expired-Kept, expire-Agrees,
  publish_offer-Kept, update-Kept, append-find, find-Agrees,
}

and_false : (a b c : Bool) → c ≡ false → (a && b && c) ≡ false
and_false true true c h = h
and_false true false c h = refl
and_false false b c h = refl

pub rival_pending : (y x : Offer) → is_pending x.status ≡ false → is_rival y x ≡ false
unfolding is_rival
rival_pending y x off = and_false (x.product_id == y.product_id) (not (x.id == y.id)) _ off

earlier_pending :
    (product buyer : ObjectId) (x : Offer)
    → is_pending x.status ≡ false
    → is_pending_of product buyer x ≡ false
unfolding is_pending_of
earlier_pending product buyer x off =
    and_false (x.product_id == product) (x.buyer_id == buyer) _ off

module _ (o : Offer) (resolved : is_pending o.status ≡ false) where
  rivals-Kept :
      (e : Env) (user : ObjectId) (y : Offer) (m : Market)
      → Kept o resolved m.offers
      → Kept o resolved (reject_rivals e user y m).offers
  unfolding reject_rivals is_rival resolve_as
  rivals-Kept e user y m kept = elim (Bool-cases (is_accepted y.status)) [
    | inl taken ↦ rw taken (
        update-Kept o resolved (is_rival y) (resolve_as rejected e (by_user user)) m.offers
          (λ x off. rival_pending y x off) (λ x. refl) kept)
    | inr no_rival ↦ rw no_rival kept
  ]

  decision-Kept :
      (e : Env) (user : ObjectId) (y : Option Offer) (m : Market)
      → ((z : Offer) → y ≡ some z → Agrees o resolved z)
      → Kept o resolved m.offers
      → Kept o resolved (save_decision e user y m).1.offers
  unfolding save_decision
  decision-Kept e user none m agrees kept = kept
  decision-Kept e user (some y) m agrees kept =
      publish_offer-Kept o resolved e _ y _
        (rivals-Kept e user y (put_offer y m) (put-Kept o resolved y m (agrees y refl) kept))

  resolve-Kept :
      (e : Env) (user : ObjectId) (action : Action) (x : Offer) (m : Market)
      → Agrees o resolved x
      → Kept o resolved m.offers
      → Kept o resolved (resolve_current e user action x m).1.offers
  unfolding resolve_current
  resolve-Kept e user action x m agrees kept = elim (Bool-cases (is_pending x.status)) [
    | inr done ↦ rw done kept
    | inl waits ↦ elim (Bool-cases (x.seller_id == user)) [
      | inr stranger ↦ rw (waits, stranger) kept
      | inl seller ↦
          rw (waits, seller)
            (decision-Kept e user (decide e user action x) m
              (λ z made. other-Agrees o resolved z (
                ap (λ n. n == o.id) (decide_resolved e user action x z made).0
                ∙ other o resolved x agrees waits))
              kept)
    ]
  ]

  insert-Kept :
      (e : Env) (y : Offer) (m : Market)
      → (y.id == o.id) ≡ false
      → Kept o resolved m.offers
      → Kept o resolved (insert_offer e y m).1.offers
  unfolding insert_offer Kept
  insert-Kept e y m new kept = elim (Bool-cases (fits_schema y)) [
    | inl fits ↦ rw fits (
        publish_offer-Kept o resolved e _ y (record m { offers = m.offers ++ (y ∷ []) })
          (
            append-find o resolved y m.offers kept.0,
            All-append (Agrees o resolved) m.offers (y ∷ []) kept.1
                (other-Agrees o resolved y new, tt),
          ))
    | inr long ↦ rw long kept
  ]

  terms-Kept :
      (e : Env) (buyer : ObjectId) (p : Product) (b : Proposal) (t : Option (Option ℕ)) (m : Market)
      → (e.new_id == o.id) ≡ false
      → Kept o resolved m.offers
      → Kept o resolved (create_with e buyer p b t m).1.offers
  unfolding create_with withdraw_earlier resolve_as new_offer
  terms-Kept e buyer p b none m new kept = kept
  terms-Kept e buyer p b (some amount) m new kept =
      insert-Kept e (new_offer e buyer p amount b) (withdraw_earlier e p.id buyer m) new (
        update-Kept o resolved (is_pending_of p.id buyer) (resolve_as withdrawn e (by_user buyer))
          m.offers (λ x off. earlier_pending p.id buyer x off) (λ x. refl) kept)

  create-Kept :
      (e : Env) (buyer : ObjectId) (p : Option Product) (b : Proposal) (m : Market)
      → (e.new_id == o.id) ≡ false
      → Kept o resolved m.offers
      → Kept o resolved (create_for e buyer p b m).1.offers
  unfolding create_for
  create-Kept e buyer none b m new kept = kept
  create-Kept e buyer (some p) b m new kept =
      elim (Bool-cases
        (p.seller_id == buyer || not (is_available p.status) || not p.allow_offers)) [
          | inl refused ↦ rw refused kept
          | inr free ↦ rw free (terms-Kept e buyer p b (check_terms b) m new kept)
        ]

  withdraw-Kept :
      (e : Env) (user : ObjectId) (x : Option Offer) (m : Market)
      → ((y : Offer) → x ≡ some y → Agrees o resolved y)
      → Kept o resolved m.offers
      → Kept o resolved (withdraw_found e user x m).1.offers
  unfolding withdraw_found resolve_as
  withdraw-Kept e user none m agrees kept = kept
  withdraw-Kept e user (some y) m agrees kept = elim (Bool-cases (y.buyer_id == user)) [
    | inr stranger ↦ rw stranger kept
    | inl mine ↦ elim (Bool-cases (is_pending y.status)) [
      | inr done ↦ rw (mine, done) kept
      | inl waits ↦
          rw (mine, waits)
            (put-Kept o resolved (resolve_as withdrawn e (by_user user) y) m
              (other-Agrees o resolved _ (other o resolved y (agrees y refl) waits)) kept)
    ]
  ]

  each-Kept :
      (e : Env) (os : List Offer) (m : Market)
      → All (Agrees o resolved) os
      → Kept o resolved m.offers
      → Kept o resolved (expire_each e os m).offers
  unfolding expire_each
  each-Kept e [] m agrees kept = kept
  each-Kept e (x ∷ os) m agrees kept =
      each-Kept e os (save_expired e x m) agrees.1
        (save_expired-Kept o resolved e x m agrees.0 kept)

  list-Kept :
      (e : Env) (filter : Offer → Bool) (skip size : ℕ) (m : Market)
      → Kept o resolved m.offers
      → Kept o resolved (list_offers e filter skip size m).1.offers
  unfolding list_offers listed_offers Kept
  list-Kept e filter skip size m kept =
      each-Kept e _ m
        (All-take (Agrees o resolved) size _ (
          All-drop (Agrees o resolved) skip _ (
            All-reverse (Agrees o resolved) _
              (All-select (Agrees o resolved) filter m.offers kept.1))))
        kept

  seller-Kept :
      (e : Env) (user product : ObjectId) (skip size : ℕ) (p : Option Product) (m : Market)
      → Kept o resolved m.offers
      → Kept o resolved (list_for_seller e user product skip size p m).1.offers
  unfolding list_for_seller
  seller-Kept e user product skip size none m kept = kept
  seller-Kept e user product skip size (some p) m kept = elim (Bool-cases (p.seller_id == user)) [
    | inl mine ↦ rw mine (list-Kept e (λ x. x.product_id == product) skip size m kept)
    | inr stranger ↦ rw stranger kept
  ]

  found-Kept :
      (e : Env) (user : ObjectId) (action : Action) (x : Option Offer) (m : Market)
      → ((y : Offer) → x ≡ some y → Agrees o resolved y)
      → Kept o resolved m.offers
      → Kept o resolved (resolve_found e user action x m).1.offers
  unfolding resolve_found
  found-Kept e user action none m agrees kept = kept
  found-Kept e user action (some x) m agrees kept =
      resolve-Kept e user action (expire_if_needed e x) (save_expired e x m)
        (expire-Agrees o resolved e x (agrees x refl))
        (save_expired-Kept o resolved e x m (agrees x refl) kept)

  -- A new offer gets an id of its own.
  abbrev HasNewId : Env × Request → Type 0
  HasNewId r = (r.0.new_id == o.id) ≡ false

  request-Kept :
      (e : Env) (r : Request) (m : Market)
      → HasNewId (e, r)
      → Kept o resolved m.offers
      → Kept o resolved (each_offer_request e r m).offers
  unfolding each_offer_request create_offer resolve_offer withdraw_offer list_product_offers
      list_my_offers Kept
  request-Kept e (to_create buyer product b) m new kept =
      create-Kept e buyer (find_product product m.products) b m new kept
  request-Kept e (to_resolve user offer action) m new kept =
      found-Kept e user action (find_offer offer m.offers) m
        (λ y. find-Agrees o resolved offer m.offers y kept.1) kept
  request-Kept e (to_withdraw user offer) m new kept =
      withdraw-Kept e user (find_offer offer m.offers) m
        (λ y. find-Agrees o resolved offer m.offers y kept.1) kept
  request-Kept e (to_list_product user product skip size) m new kept =
      seller-Kept e user product skip size (find_product product m.products) m kept
  request-Kept e (to_list_mine user skip size) m new kept =
      list-Kept e (λ x. x.buyer_id == user) skip size m kept

  pub run-Kept :
      (rs : List (Env × Request)) (m : Market)
      → All HasNewId rs
      → Kept o resolved m.offers
      → Kept o resolved (run_requests rs m).offers
  unfolding run_requests
  run-Kept [] m new kept = kept
  run-Kept (r ∷ rs) m new kept =
      run-Kept rs (each_offer_request r.0 r.1 m) new.1 (request-Kept r.0 r.1 m new.0 kept)
