-- ===== src/Products/Offers/Accepted.antt =====
-- What the acceptance of an offer does to the others, and the checkout that follows.
use iuh_exchange_be.Base.{
  Bool, ◌≡◌, refl, ap, ◌∙◌, sym, true, false, some, List, [], ◌∷◌, ◌==◌, ◌&&◌, if◌then◌else◌,
  Bool-cases, inl, inr, ==_iff, any,
}
use iuh_exchange_be.Base.Result.{Result, ok, err, broker_down}
use iuh_exchange_be.Orders.Model.{ObjectId, trade}
use iuh_exchange_be.Products.Saga.{Product, is_available, find_product}
use iuh_exchange_be.Products.Offers.Document.{
  is_pending, is_accepted, Offer, OfferEvent, offer_resolved, Env, Market, accept, by_user,
  find_offer, save_offer, update_many, put_offer, resolve_as, is_due, save_expired,
  expire_if_needed, publish_offer, accepted, rejected,
}
use iuh_exchange_be.Products.Offers.Handlers.{
  decide, is_rival, reject_rivals, save_decision, resolve_current, resolve_found, resolve_offer,
}
use iuh_exchange_be.Products.Offers.Steps.{rival_pending}
use iuh_exchange_be.Products.Offers.Kept.{some_injective}
use iuh_exchange_be.Products.Offers.Reads.{
  checkout_of, checkout_product, checkout_found, get_offer_checkout,
}

-- Whether an offer for a product is pending.
abbrev pub has_pending : ObjectId → List Offer → Bool
has_pending product os = any (λ x. x.product_id == product && is_pending x.status) os

-- The table after the acceptance: the offer, and its rivals.
settled : Env → ObjectId → Offer → Market → Market
settled e user o m =
    reject_rivals e user (resolve_as accepted e (by_user user) o)
      (put_offer (resolve_as accepted e (by_user user) o) m)

accept_ran :
    (e : Env) (user id : ObjectId) (o : Offer) (m : Market)
    → find_offer id m.offers ≡ some o
    → is_pending o.status ≡ true
    → is_due e o ≡ false
    → (o.seller_id == user) ≡ true
    → resolve_offer e user id accept m
      ≡ publish_offer e
          (offer_resolved o.id accepted)
          (resolve_as accepted e (by_user user) o)
          (settled e user o m)
unfolding resolve_offer resolve_found resolve_current expire_if_needed save_expired save_decision
    decide settled resolve_as
accept_ran e user id o m found waits early seller = rw (found, early, waits, seller) refl

-- One row of the table after the acceptance of `a`.
row_after : Env → ObjectId → Offer → Offer → Offer
row_after e user a x =
    let y = if x.id == a.id then a else x in
    if is_rival a y then resolve_as rejected e (by_user user) y else y

row_same :
    (e : Env) (user : ObjectId) (a x : Offer)
    → is_pending a.status ≡ false
    → (x.id == a.id) ≡ true
    → row_after e user a x ≡ a
unfolding row_after
row_same e user a x off same = rw (same, rival_pending a a off) refl

row_other :
    (e : Env) (user : ObjectId) (a x : Offer)
    → (x.id == a.id) ≡ false
    → (row_after e user a x).id ≡ x.id
unfolding row_after resolve_as
row_other e user a x apart = elim (Bool-cases (is_rival a x)) [
  | inl rival ↦ rw (apart, rival) refl
  | inr neutral ↦ rw (apart, neutral) refl
]

both_false : (a b : Bool) → b ≡ false → (a && b) ≡ false
both_false true b h = h
both_false false b h = refl

neutral_off :
    (a x : Offer)
    → (x.id == a.id) ≡ false
    → is_rival a x ≡ false
    → (x.product_id == a.product_id && is_pending x.status) ≡ false
unfolding is_rival
neutral_off a x apart neutral = elim (Bool-cases (x.product_id == a.product_id)) [
  | inl same ↦ rw same (rw (same, apart) at neutral)
  | inr elsewhere ↦ rw elsewhere refl
]

row_off :
    (e : Env) (user : ObjectId) (a x : Offer)
    → is_pending a.status ≡ false
    → ((row_after e user a x).product_id == a.product_id
        && is_pending (row_after e user a x).status)
      ≡ false
unfolding row_after resolve_as is_pending
row_off e user a x off = elim (Bool-cases (x.id == a.id)) [
  | inl same ↦ rw (same, rival_pending a a off) (both_false _ _ off)
  | inr apart ↦ elim (Bool-cases (is_rival a x)) [
    | inl rival ↦ rw (apart, rival) (both_false (x.product_id == a.product_id) false refl)
    | inr neutral ↦ rw (apart, neutral) (neutral_off a x apart neutral)
  ]
]

rows_after : Env → ObjectId → Offer → List Offer → List Offer
rows_after e user a os =
    update_many (is_rival a) (resolve_as rejected e (by_user user)) (save_offer a os)

no_rivals :
    (e : Env) (user : ObjectId) (a : Offer) (os : List Offer)
    → is_pending a.status ≡ false
    → has_pending a.product_id (rows_after e user a os) ≡ false
unfolding rows_after update_many save_offer row_after
no_rivals e user a [] off = refl
no_rivals e user a (x ∷ os) off = rw (row_off e user a x off) (no_rivals e user a os off)

find_head :
    (id : ObjectId) (y a : Offer) (os : List Offer)
    → y ≡ a
    → (a.id == id) ≡ true
    → find_offer id (y ∷ os) ≡ some a
unfolding find_offer
find_head id y a os e hit = rw (ap (λ (o : Offer). o.id == id) e ∙ hit) (ap some e)

find_tail :
    (id : ObjectId) (y a : Offer) (os : List Offer)
    → (y.id == id) ≡ false
    → find_offer id os ≡ some a
    → find_offer id (y ∷ os) ≡ some a
unfolding find_offer
find_tail id y a os miss found = rw miss found

still_found :
    (e : Env) (user id : ObjectId) (a : Offer) (os : List Offer)
    → any (λ x. x.id == id) os ≡ true
    → a.id ≡ id
    → is_pending a.status ≡ false
    → find_offer id (rows_after e user a os) ≡ some a
unfolding rows_after update_many save_offer row_after
still_found e user id a [] here same off = cc
still_found e user id a (x ∷ os) here same off = elim (Bool-cases (x.id == a.id)) [
  | inl hit ↦ find_head id _ a _ (row_same e user a x off hit) ((==_iff a.id id).1 same)
  | inr miss ↦
      let apart = ap (λ n. x.id == n) (sym same) ∙ miss in
      find_tail id _ a _ (ap (λ n. n == id) (row_other e user a x miss) ∙ apart)
        (still_found e user id a os (rw apart at here) same off)
]

found_here :
    (id : ObjectId) (os : List Offer) (o : Offer)
    → find_offer id os ≡ some o
    → (any (λ x. x.id == id) os ≡ true) × (o.id ≡ id)
unfolding find_offer
found_here id [] o found = cc
found_here id (x ∷ os) o found = elim (Bool-cases (x.id == id)) [
  | inl hit ↦ (
    rw hit refl,
    ap (λ (y : Offer). y.id) (sym (some_injective x o (rw hit at found))) ∙ (==_iff x.id id).0 hit,
  )
  | inr miss ↦ let (here, same) = found_here id os o (rw miss at found) in (rw miss here, same)
]

settled-offers :
    (e : Env) (user : ObjectId) (o : Offer) (m : Market)
    → ((settled e user o m).offers
        ≡ rows_after e user (resolve_as accepted e (by_user user) o) m.offers)
      × ((settled e user o m).products ≡ m.products)
unfolding settled reject_rivals rows_after put_offer resolve_as is_accepted
settled-offers e user o m = (refl, refl)

publish_offer-keeps :
    {A : Type 0} (e : Env) (event : OfferEvent) (a : A) (m : Market)
    → ((publish_offer e event a m).1.offers ≡ m.offers)
      × ((publish_offer e event a m).1.products ≡ m.products)
unfolding publish_offer
publish_offer-keeps e event a m = elim (Bool-cases (e.broker event)) [
  | inl up ↦ rw up (refl, refl)
  | inr down ↦ rw down (refl, refl)
]

publish_offer-answer :
    {A : Type 0} (e : Env) (event : OfferEvent) (a : A) (m : Market)
    → (publish_offer e event a m).0 ≡ (if e.broker event then ok a else err broker_down)
unfolding publish_offer
publish_offer-answer e event a m = elim (Bool-cases (e.broker event)) [
  | inl up ↦ rw up refl
  | inr down ↦ rw down refl
]

checkout_ok :
    (buyer id : ObjectId) (a : Offer) (p : Product) (m : Market)
    → find_offer id m.offers ≡ some a
    → a.buyer_id ≡ buyer
    → is_accepted a.status ≡ true
    → find_product a.product_id m.products ≡ some p
    → is_available p.status ≡ true
    → get_offer_checkout buyer id m ≡ ok (checkout_of a p)
unfolding get_offer_checkout checkout_found checkout_product
checkout_ok buyer id a p m found mine taken product free =
    rw (found, (==_iff a.buyer_id buyer).1 mine, taken, product, free) refl

-- The seller accepts an offer that is pending and not due, for a product that is available. Then the
-- table has the offer as accepted, no offer for its product is pending any more, and its buyer's
-- checkout is told the offer's own amount, 0 for a trade, with its seller, product, kind and trade
-- item. The request answers with the accepted offer where the
-- broker takes the event, and fails where it does not, with the same table.
pub accept_closes :
    (e : Env) (user id : ObjectId) (o : Offer) (p : Product) (m : Market)
    → find_offer id m.offers ≡ some o
    → is_pending o.status ≡ true
    → is_due e o ≡ false
    → o.seller_id ≡ user
    → find_product o.product_id m.products ≡ some p
    → is_available p.status ≡ true
    → let after = resolve_offer e user id accept m in
      let a = record o {
        status = accepted;
        resolved_at = some e.now;
        resolved_by = some (by_user user);
      } in
      (find_offer id after.1.offers ≡ some a)
      × (has_pending o.product_id after.1.offers ≡ false)
      × (after.0 ≡ (if e.broker (offer_resolved o.id accepted) then ok a else err broker_down))
      × (get_offer_checkout o.buyer_id id after.1
          ≡ ok (record {
            offer_id = o.id;
            product_id = o.product_id;
            seller_id = o.seller_id;
            buyer_id = o.buyer_id;
            price = if o.for_trade then some 0 else o.amount;
            listing_type = if o.for_trade then trade else p.listing_type;
            trade_item_title = o.trade_item_title;
            trade_item_description = o.trade_item_description;
          }))
unfolding checkout_of resolve_as is_pending is_accepted
accept_closes e user id o p m found waits early seller product free =
    let a = resolve_as accepted e (by_user user) o in
    let event = offer_resolved o.id accepted in
    let s = settled e user o m in
    let ran = accept_ran e user id o m found waits early ((==_iff o.seller_id user).1 seller) in
    let (told, shelved) = publish_offer-keeps e event a s in
    let (rows, stock) = settled-offers e user o m in
    let (here, same) = found_here id m.offers o found in
    let offers = ap (λ (r : Result Offer × Market). r.1.offers) ran ∙ told ∙ rows in
    let products = ap (λ (r : Result Offer × Market). r.1.products) ran ∙ shelved ∙ stock in
    let kept = ap (find_offer id) offers ∙ still_found e user id a m.offers here same refl in
    (
      kept,
      ap (has_pending o.product_id) offers ∙ no_rivals e user a m.offers refl,
      ap (λ (r : Result Offer × Market). r.0) ran ∙ publish_offer-answer e event a s,
      checkout_ok o.buyer_id id a p (resolve_offer e user id accept m).1 kept refl refl
          (ap (find_product o.product_id) products ∙ product) free,
    )
