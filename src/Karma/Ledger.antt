-- ===== src/Karma/Ledger.antt =====
-- The karma of the users against the history of its changes.
use iuh_exchange_be.Base.{
  ℕ, suc, zero, ◌≡◌, refl, ap, ◌∙◌, Bool, true, false, Option, none, some, List, [], ◌∷◌, ◌++◌,
  ◌==◌, arith, if◌then◌else◌, Bool-cases, inl, inr, ==_iff,
}
use iuh_exchange_be.Base.Int.{ℤ, pos, negsuc, ◌+ℤ◌, +ℤ_assoc, +ℤ_zero, zero_+ℤ}
use iuh_exchange_be.Orders.Model.{ObjectId}
use iuh_exchange_be.Karma.Policy.{User, karma_of, sync_permissions_with_karma}
use iuh_exchange_be.Karma.Service.{
  Request, Entry, Store, Message, find_user, save_user, adjusted, store_adjustment, adjust_found,
  adjust_unless, apply_to, apply_karma_adjustment, apply_all, requests_of, each_message, new_entry,
}

-- The karma of a user, 0 where there is none.
abbrev pub karma_found : Option User → ℤ
karma_found none = pos 0
karma_found (some u) = karma_of u

abbrev pub karma_at : ObjectId → List User → ℤ
karma_at id us = karma_found (find_user id us)

-- The sum of a user's entries.
abbrev pub total : ObjectId → List Entry → ℤ
total id [] = pos 0
total id (e ∷ es) = let rest = total id es in if e.user_id == id then e.amount +ℤ rest else rest

-- The messages of a run, each with the requests at which the broker is up.
abbrev pub run : List ((ℕ → Bool) × Message) → Store → Store
run [] s = s
run ((broker, m) ∷ ms) s = run ms (each_message broker m s)

abbrev pub IsBalanced : List User → Store → Type 0
IsBalanced start s = (id : ObjectId) → karma_at id s.users ≡ karma_at id start +ℤ total id s.history

total-append :
    (id : ObjectId) (es : List Entry) (e : Entry)
    → total id (es ++ (e ∷ [])) ≡ (if e.user_id == id then total id es +ℤ e.amount else total id es)
total-append id [] e = elim (Bool-cases (e.user_id == id)) [
  | inl same ↦ rw (same, +ℤ_zero, zero_+ℤ) refl
  | inr other ↦ rw other refl
]
total-append id (x ∷ es) e = elim (Bool-cases (x.user_id == id)) [
  | inl same ↦ elim (Bool-cases (e.user_id == id)) [
    | inl mine ↦ rw (same, total-append id es e, mine, +ℤ_assoc) refl
    | inr other ↦ rw (same, total-append id es e, other) refl
  ]
  | inr skip ↦ rw (skip, total-append id es e) refl
]

pub find_user-id :
    (id : ObjectId) (us : List User) (u : User) → find_user id us ≡ some u → u.id ≡ id
unfolding find_user
find_user-id id [] u h = cc
find_user-id id (x ∷ us) u h = ground (arith, find_user-id id us u)

find_user-save :
    (id : ObjectId) (u : User) (us : List User)
    → find_user id (save_user u us) ≡ (if u.id == id then some u else find_user id us)
unfolding find_user save_user
find_user-save id u [] = refl
find_user-save id u (x ∷ us) = ground (arith, find_user-save id u us)

karma_of-adjusted : (u : User) (delta : ℤ) → karma_of (adjusted u delta) ≡ karma_of u +ℤ delta
unfolding adjusted karma_of sync_permissions_with_karma
karma_of-adjusted u delta = refl

id-adjusted : (u : User) (delta : ℤ) → (adjusted u delta).id ≡ u.id
unfolding adjusted sync_permissions_with_karma
id-adjusted u delta = refl

karma_at-save :
    (id : ObjectId) (u : User) (delta : ℤ) (us : List User)
    → karma_at id (save_user (adjusted u delta) us)
      ≡ (if u.id == id then karma_of u +ℤ delta else karma_at id us)
unfolding karma_of ◌+ℤ◌
karma_at-save id u delta us = elim (Bool-cases (u.id == id)) [
  | inl same ↦
      rw
        (
          ap karma_found (find_user-save id (adjusted u delta) us),
          id-adjusted u delta,
          same,
          karma_of-adjusted u delta,
        )
        refl
  | inr other ↦
      rw (ap karma_found (find_user-save id (adjusted u delta) us), id-adjusted u delta, other) refl
]

-- One more entry of the user whose karma it changes.
balance :
    (start us : List User) (es : List Entry) (u : User) (e : Entry) (id : ObjectId)
    → find_user u.id us ≡ some u
    → e.user_id ≡ u.id
    → karma_at id us ≡ karma_at id start +ℤ total id es
    → karma_at id (save_user (adjusted u e.amount) us)
      ≡ karma_at id start +ℤ total id (es ++ (e ∷ []))
balance start us es u e id found mine h = elim (Bool-cases (u.id == id)) [
  | inl same ↦
      rw (karma_at-save id u e.amount us, total-append id es e, mine, same)
        (rw (← +ℤ_assoc (karma_at id start) (total id es) e.amount, ← h)
          (rw (← (==_iff u.id id).0 same, found) refl))
  | inr other ↦ rw (karma_at-save id u e.amount us, total-append id es e, mine, other) h
]

store_adjustment-IsBalanced :
    (start : List User) (broker_up : Bool) (u : User) (delta : ℤ) (r : Request) (s : Store)
    → find_user u.id s.users ≡ some u
    → IsBalanced start s
    → IsBalanced start (store_adjustment broker_up u delta r s).1
unfolding store_adjustment new_entry
store_adjustment-IsBalanced start true u delta r s found h id =
    balance start s.users s.history u (new_entry u delta r) id found refl (h id)
store_adjustment-IsBalanced start false u delta r s found h id =
    balance start s.users s.history u (new_entry u delta r) id found refl (h id)

adjust_found-IsBalanced :
    (start : List User) (broker_up : Bool) (id : ObjectId) (delta : ℤ) (r : Request) (s : Store)
    (f : Option User)
    → find_user id s.users ≡ f
    → IsBalanced start s
    → IsBalanced start (adjust_found broker_up delta r s f).1
unfolding adjust_found
adjust_found-IsBalanced start broker_up id delta r s none e h = h
adjust_found-IsBalanced start broker_up id delta r s (some u) e h =
    store_adjustment-IsBalanced start broker_up u delta r s
      (ap (λ i. find_user i s.users) (find_user-id id s.users u e) ∙ e) h

adjust_unless-IsBalanced :
    (start : List User) (broker_up : Bool) (id : ObjectId) (delta : ℤ) (r : Request) (s : Store)
    (f : Option Entry)
    → IsBalanced start s
    → IsBalanced start (adjust_unless broker_up id delta r s f).1
unfolding adjust_unless
adjust_unless-IsBalanced start broker_up id delta r s (some e) h = h
adjust_unless-IsBalanced start broker_up id delta r s none h =
    adjust_found-IsBalanced start broker_up id delta r s (find_user id s.users) refl h

apply_to-IsBalanced :
    (start : List User) (broker_up : Bool) (user : Option ObjectId) (amount : Option ℤ)
    (r : Request) (s : Store)
    → IsBalanced start s
    → IsBalanced start (apply_to broker_up user amount r s).1
unfolding apply_to
apply_to-IsBalanced start broker_up none amount r s h = h
apply_to-IsBalanced start broker_up (some id) none r s h = h
apply_to-IsBalanced start broker_up (some id) (some (pos zero)) r s h = h
apply_to-IsBalanced start broker_up (some id) (some (pos (suc n))) r s h =
    adjust_unless-IsBalanced start broker_up id (pos (suc n)) r s _ h
apply_to-IsBalanced start broker_up (some id) (some (negsuc n)) r s h =
    adjust_unless-IsBalanced start broker_up id (negsuc n) r s _ h

apply_all-IsBalanced :
    (start : List User) (broker : ℕ → Bool) (n : ℕ) (rs : List Request) (s : Store)
    → IsBalanced start s
    → IsBalanced start (apply_all broker n rs s)
unfolding apply_all apply_karma_adjustment
apply_all-IsBalanced start broker n [] s h = h
apply_all-IsBalanced start broker n (r ∷ rs) s h =
    apply_all-IsBalanced start broker (suc n) rs _
      (apply_to-IsBalanced start (broker n) r.user_id r.amount r s h)

run-IsBalanced :
    (start : List User) (ms : List ((ℕ → Bool) × Message)) (s : Store)
    → IsBalanced start s
    → IsBalanced start (run ms s)
unfolding each_message
run-IsBalanced start [] s h = h
run-IsBalanced start ((broker, m) ∷ ms) s h =
    run-IsBalanced start ms _ (apply_all-IsBalanced start broker 0 (requests_of m) s h)

-- From an empty history, whatever messages come, in whatever order and with the broker up or down:
-- a user's karma is what it was plus the sum of the user's entries in the history.
pub run_balanced :
    (ms : List ((ℕ → Bool) × Message)) (s : Store) (id : ObjectId)
    → s.history ≡ []
    → karma_at id (run ms s).users ≡ karma_at id s.users +ℤ total id (run ms s).history
run_balanced ms s id fresh =
    run-IsBalanced s.users ms s (λ i. rw (fresh, +ℤ_zero (karma_at i s.users)) refl) id
