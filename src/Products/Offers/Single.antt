-- ===== src/Products/Offers/Single.antt =====
-- A buyer has at most one pending offer for a product.
use iuh_exchange_be.Base.{
  ◌+◌, ◌≤◌, ℕ, Bool, ◌≡◌, refl, ap, ◌∙◌, sym, true, false, Option, some, none, List, [], ◌∷◌, ◌++◌,
  ◌==◌, ◌||◌, not, if◌then◌else◌, ◌⊎◌, arith, Bool-cases, inl, inr, ==_iff,
}
use iuh_exchange_be.Orders.Model.{ObjectId}
use iuh_exchange_be.Products.Saga.{Product, is_available, find_product}
use iuh_exchange_be.Products.Offers.Document.{
  is_pending, Env, Market, Proposal, by_user, find_offer, update_many, resolve_as, publish_offer,
  new_offer, fits_schema, withdrawn,
}
use iuh_exchange_be.Products.Offers.Handlers.{
  is_pending_of, withdraw_earlier, insert_offer, create_with, create_for, create_offer, check_terms,
  resolve_found, resolve_offer, withdraw_found, withdraw_offer,
}
use iuh_exchange_be.Products.Offers.Reads.{
  expire_each, listed_offers, list_offers, list_for_seller, list_product_offers, list_my_offers,
  Request, to_create, to_resolve, to_withdraw, to_list_product, to_list_mine, each_offer_request,
  run_requests,
}
use iuh_exchange_be.Products.Offers.Document.{offer_created}
use iuh_exchange_be.Products.Offers.Waiting.{
  waiting, waiting-update, waiting-append, waiting-withdrawn,
}
use iuh_exchange_be.Products.Offers.Fewer.{
  Fewer, off_withdrawn, Fewer-publish, Fewer-withdraw, Fewer-each, Fewer-found, Fewer-seller,
}

-- A buyer has at most one pending offer for a product.
abbrev pub IsSingle : Market → Type 0
IsSingle m = (p b : ObjectId) → waiting p b m.offers ≤ 1

IsSingle-Fewer : (m n : Market) → IsSingle m → Fewer m n → IsSingle n
IsSingle-Fewer m n single less p b = omega (arith, single p b, less p b)

new_waiting :
    (p b : ObjectId) (e : Env) (buyer : ObjectId) (q : Product) (amount : Option ℕ) (t : Proposal)
    → ((q.id ≡ p) × (buyer ≡ b)) ⊎ (is_pending_of p b (new_offer e buyer q amount t) ≡ false)
unfolding is_pending_of new_offer is_pending
new_waiting p b e buyer q amount t = elim (Bool-cases (q.id == p)) [
  | inr apart ↦ inr (rw apart refl)
  | inl same ↦ elim (Bool-cases (buyer == b)) [
    | inr apart ↦ inr (rw (same, apart) refl)
    | inl same' ↦ inl ((==_iff q.id p).0 same, (==_iff buyer b).0 same')
  ]
]

at_most_one : (c : Bool) → (if c then 1 else 0) ≤ 1
at_most_one true = omega arith
at_most_one false = omega arith

-- The table after the withdrawal of the earlier offers, with the new one.
one_more :
    (e : Env) (buyer : ObjectId) (q : Product) (amount : Option ℕ) (t : Proposal) (m : Market)
    → IsSingle m
    → (p b : ObjectId)
    → waiting p b ((withdraw_earlier e q.id buyer m).offers ++ (new_offer e buyer q amount t ∷ []))
      ≤ 1
unfolding withdraw_earlier
one_more e buyer q amount t m single p b =
    let change = resolve_as withdrawn e (by_user buyer) in
    let left = update_many (is_pending_of q.id buyer) change m.offers in
    let fewer =
      waiting-update p b (is_pending_of q.id buyer) change m.offers
        (off_withdrawn e (by_user buyer)) in
    elim (new_waiting p b e buyer q amount t) [
      | inl (same, same') ↦
          let none_left =
            ap (λ r. waiting r b left) (sym same)
            ∙ ap (λ r. waiting q.id r left) (sym same')
            ∙ waiting-withdrawn q.id buyer change m.offers (off_withdrawn e (by_user buyer)) in
          omega (
            arith,
            waiting-append p b left (new_offer e buyer q amount t),
            none_left,
            at_most_one (is_pending_of p b (new_offer e buyer q amount t)),
          )
      | inr apart ↦
          let same_count =
            waiting-append p b left (new_offer e buyer q amount t)
            ∙ ap (λ c. waiting p b left + (if c then 1 else 0)) apart in
          omega (arith, same_count, fewer, single p b)
    ]

IsSingle-withdrawn :
    (e : Env) (product buyer : ObjectId) (m : Market)
    → IsSingle m
    → IsSingle (withdraw_earlier e product buyer m)
unfolding withdraw_earlier
IsSingle-withdrawn e product buyer m single p b =
    let fewer =
      waiting-update p b (is_pending_of product buyer) (resolve_as withdrawn e (by_user buyer))
        m.offers (off_withdrawn e (by_user buyer)) in
    omega (arith, fewer, single p b)

IsSingle-insert :
    (e : Env) (buyer : ObjectId) (q : Product) (amount : Option ℕ) (t : Proposal) (m : Market)
    → IsSingle m
    → IsSingle (insert_offer e (new_offer e buyer q amount t) (withdraw_earlier e q.id buyer m)).1
unfolding insert_offer
IsSingle-insert e buyer q amount t m single =
    let o = new_offer e buyer q amount t in
    let left = withdraw_earlier e q.id buyer m in
    elim (Bool-cases (fits_schema o)) [
      | inl fits ↦ rw fits (
          let with_offer = record left { offers = left.offers ++ (o ∷ []) } in
          let event = offer_created o.id o.product_id o.buyer_id o.seller_id in
          IsSingle-Fewer with_offer (publish_offer e event o with_offer).1
            (one_more e buyer q amount t m single) (Fewer-publish e event o with_offer))
      | inr long ↦ rw long (IsSingle-withdrawn e q.id buyer m single)
    ]

IsSingle-terms :
    (e : Env) (buyer : ObjectId) (q : Product) (t : Proposal) (amount : Option (Option ℕ))
    (m : Market)
    → IsSingle m
    → IsSingle (create_with e buyer q t amount m).1
unfolding create_with
IsSingle-terms e buyer q t none m single = single
IsSingle-terms e buyer q t (some amount) m single = IsSingle-insert e buyer q amount t m single

IsSingle-create :
    (e : Env) (buyer : ObjectId) (q : Option Product) (t : Proposal) (m : Market)
    → IsSingle m
    → IsSingle (create_for e buyer q t m).1
unfolding create_for
IsSingle-create e buyer none t m single = single
IsSingle-create e buyer (some q) t m single =
    elim (Bool-cases (q.seller_id == buyer || not (is_available q.status) || not q.allow_offers)) [
      | inl refused ↦ rw refused single
      | inr free ↦ rw free (IsSingle-terms e buyer q t (check_terms t) m single)
    ]

IsSingle-request :
    (e : Env) (r : Request) (m : Market) → IsSingle m → IsSingle (each_offer_request e r m)
unfolding each_offer_request create_offer resolve_offer withdraw_offer list_product_offers
    list_my_offers list_offers
IsSingle-request e (to_create buyer product t) m single =
    IsSingle-create e buyer (find_product product m.products) t m single
IsSingle-request e (to_resolve user offer action) m single =
    IsSingle-Fewer m (resolve_found e user action (find_offer offer m.offers) m).1 single
      (Fewer-found e user action (find_offer offer m.offers) m)
IsSingle-request e (to_withdraw user offer) m single =
    IsSingle-Fewer m (withdraw_found e user (find_offer offer m.offers) m).1 single
      (Fewer-withdraw e user (find_offer offer m.offers) m)
IsSingle-request e (to_list_product user product skip size) m single =
    IsSingle-Fewer m
      (list_for_seller e user product skip size (find_product product m.products) m).1 single
      (Fewer-seller e user product skip size (find_product product m.products) m)
IsSingle-request e (to_list_mine user skip size) m single =
    IsSingle-Fewer m (expire_each e (listed_offers (λ x. x.buyer_id == user) skip size m.offers) m)
      single (Fewer-each e (listed_offers (λ x. x.buyer_id == user) skip size m.offers) m)

-- If every buyer has at most one pending offer for each product, that stays so, whatever requests
-- follow, of any users at any times.
pub one_pending :
    (rs : List (Env × Request)) (m : Market) → IsSingle m → IsSingle (run_requests rs m)
unfolding run_requests
one_pending [] m single = single
one_pending (r ∷ rs) m single =
    one_pending rs (each_offer_request r.0 r.1 m) (IsSingle-request r.0 r.1 m single)
