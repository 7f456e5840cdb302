-- ===== src/Karma/Once.antt =====
-- Karma is adjusted once per user, related document and source.
use iuh_exchange_be.Base.{
  ℕ, suc, zero, ◌≡◌, refl, String, Bool, true, false, Option, none, some, List, [], ◌∷◌, ◌++◌,
  arith, ap, sym, ◌∙◌,
}
use iuh_exchange_be.Base.Int.{ℤ, pos, negsuc}
use iuh_exchange_be.Base.Text.{eq_iff}
use iuh_exchange_be.Base.Result.{ok}
use iuh_exchange_be.Orders.Model.{ObjectId}
use iuh_exchange_be.Karma.Policy.{User}
use iuh_exchange_be.Karma.Service.{
  Request, Entry, Store, Message, find_user, find_entry, is_entry_of, find_duplicate,
  store_adjustment, adjust_found, adjust_unless, apply_to, apply_karma_adjustment, apply_all,
  requests_of, each_message, new_entry,
}
use iuh_exchange_be.Karma.Ledger.{run, find_user-id}

find_entry-append :
    (user related : ObjectId) (source : String) (es : List Entry) (x e : Entry)
    → find_entry user related source es ≡ some e
    → find_entry user related source (es ++ (x ∷ [])) ≡ some e
unfolding find_entry
find_entry-append user related source [] x e h = cc
find_entry-append user related source (y ∷ es) x e h =
    ground (arith, find_entry-append user related source es x e)

-- The entry `e` is what the store finds.
abbrev Finds : ObjectId → ObjectId → String → Entry → Store → Type 0
Finds user related source e s = find_entry user related source s.history ≡ some e

module _ (user related : ObjectId) (source : String) (e : Entry) where
  store_adjustment-Finds :
      (broker_up : Bool) (u : User) (delta : ℤ) (r : Request) (s : Store)
      → Finds user related source e s
      → Finds user related source e (store_adjustment broker_up u delta r s).1
  unfolding store_adjustment
  store_adjustment-Finds true u delta r s h = find_entry-append user related source s.history _ e h
  store_adjustment-Finds false u delta r s h = find_entry-append user related source s.history _ e h

  adjust_found-Finds :
      (broker_up : Bool) (delta : ℤ) (r : Request) (s : Store) (f : Option User)
      → Finds user related source e s
      → Finds user related source e (adjust_found broker_up delta r s f).1
  unfolding adjust_found
  adjust_found-Finds broker_up delta r s none h = h
  adjust_found-Finds broker_up delta r s (some u) h = store_adjustment-Finds broker_up u delta r s h

  adjust_unless-Finds :
      (broker_up : Bool) (id : ObjectId) (delta : ℤ) (r : Request) (s : Store) (d : Option Entry)
      → Finds user related source e s
      → Finds user related source e (adjust_unless broker_up id delta r s d).1
  unfolding adjust_unless
  adjust_unless-Finds broker_up id delta r s (some d) h = h
  adjust_unless-Finds broker_up id delta r s none h =
      adjust_found-Finds broker_up delta r s (find_user id s.users) h

  apply_to-Finds :
      (broker_up : Bool) (id : Option ObjectId) (amount : Option ℤ) (r : Request) (s : Store)
      → Finds user related source e s
      → Finds user related source e (apply_to broker_up id amount r s).1
  unfolding apply_to
  apply_to-Finds broker_up none amount r s h = h
  apply_to-Finds broker_up (some id) none r s h = h
  apply_to-Finds broker_up (some id) (some (pos zero)) r s h = h
  apply_to-Finds broker_up (some id) (some (pos (suc n))) r s h =
      adjust_unless-Finds broker_up id (pos (suc n)) r s _ h
  apply_to-Finds broker_up (some id) (some (negsuc n)) r s h =
      adjust_unless-Finds broker_up id (negsuc n) r s _ h

  apply_all-Finds :
      (broker : ℕ → Bool) (n : ℕ) (rs : List Request) (s : Store)
      → Finds user related source e s
      → Finds user related source e (apply_all broker n rs s)
  unfolding apply_all apply_karma_adjustment
  apply_all-Finds broker n [] s h = h
  apply_all-Finds broker n (r ∷ rs) s h =
      apply_all-Finds broker (suc n) rs _ (apply_to-Finds (broker n) r.user_id r.amount r s h)

  run-Finds :
      (ms : List ((ℕ → Bool) × Message)) (s : Store)
      → Finds user related source e s
      → Finds user related source e (run ms s)
  unfolding each_message
  run-Finds [] s h = h
  run-Finds ((broker, m) ∷ ms) s h = run-Finds ms _ (apply_all-Finds broker 0 (requests_of m) s h)

find_entry-append_new :
    (user related : ObjectId) (source : String) (es : List Entry) (x : Entry)
    → find_entry user related source es ≡ none
    → is_entry_of user related source x ≡ true
    → find_entry user related source (es ++ (x ∷ [])) ≡ some x
unfolding find_entry
find_entry-append_new user related source [] x h own = rw own refl
find_entry-append_new user related source (y ∷ es) x h own =
    ground (arith, find_entry-append_new user related source es x)

new_entry-own :
    (user related : ObjectId) (u : User) (delta : ℤ) (r : Request)
    → u.id ≡ user
    → r.related_id ≡ some related
    → is_entry_of user related r.source (new_entry u delta r) ≡ true
unfolding is_entry_of new_entry
new_entry-own user related u delta r same of_related =
    rw of_related (ground (arith, (eq_iff r.source r.source).1 refl))

module _ (user related : ObjectId) (r : Request) (of_related : r.related_id ≡ some related) where
  adjust_found-own :
      (broker_up : Bool) (delta : ℤ) (s s' : Store) (e : Entry) (f : Option User)
      → find_user user s.users ≡ f
      → find_entry user related r.source s.history ≡ none
      → adjust_found broker_up delta r s f ≡ (ok (some e), s')
      → Finds user related r.source e s'
  unfolding adjust_found store_adjustment
  adjust_found-own broker_up delta s s' e none h fresh q = cc
  adjust_found-own false delta s s' e (some u) h fresh q = cc
  adjust_found-own true delta s s' e (some u) h fresh q =
      let own =
        find_entry-append_new user related r.source s.history (new_entry u delta r) fresh
          (new_entry-own user related u delta r (find_user-id user s.users u h) of_related) in
      cc

  adjust_unless-own :
      (broker_up : Bool) (delta : ℤ) (s s' : Store) (e : Entry) (d : Option Entry)
      → find_entry user related r.source s.history ≡ d
      → adjust_unless broker_up user delta r s d ≡ (ok (some e), s')
      → Finds user related r.source e s'
  unfolding adjust_unless
  adjust_unless-own broker_up delta s s' e none h q =
      adjust_found-own broker_up delta s s' e (find_user user s.users) refl h q
  adjust_unless-own broker_up delta s s' e (some d) h q = cc

  find_duplicate-related :
      (es : List Entry) → find_duplicate user r es ≡ find_entry user related r.source es
  unfolding find_duplicate
  find_duplicate-related es = rw of_related refl

  apply_to-own :
      (broker_up : Bool) (amount : Option ℤ) (s s' : Store) (e : Entry)
      → apply_to broker_up (some user) amount r s ≡ (ok (some e), s')
      → Finds user related r.source e s'
  unfolding apply_to
  apply_to-own broker_up none s s' e q = cc
  apply_to-own broker_up (some (pos zero)) s s' e q = cc
  apply_to-own broker_up (some (pos (suc n))) s s' e q =
      adjust_unless-own broker_up (pos (suc n)) s s' e _ refl (
        ap (adjust_unless broker_up user (pos (suc n)) r s) (sym (find_duplicate-related s.history))
        ∙ q)
  apply_to-own broker_up (some (negsuc n)) s s' e q =
      adjust_unless-own broker_up (negsuc n) s s' e _ refl (
        ap (adjust_unless broker_up user (negsuc n) r s) (sym (find_duplicate-related s.history))
        ∙ q)

  apply_to-again :
      (broker_up : Bool) (amount : Option ℤ) (s : Store) (e : Entry)
      → Finds user related r.source e s
      → (apply_to broker_up (some user) amount r s).1 ≡ s
  unfolding apply_to find_duplicate adjust_unless
  apply_to-again broker_up none s e h = refl
  apply_to-again broker_up (some (pos zero)) s e h = refl
  apply_to-again broker_up (some (pos (suc n))) s e h = rw (of_related, h) refl
  apply_to-again broker_up (some (negsuc n)) s e h = rw (of_related, h) refl

-- Once a request about a document has been answered with an entry, every later request for the same
-- user, document and source changes nothing, whatever its amount, whatever messages came in between
-- and whether the broker is up or down.
pub adjust_once :
    (broker_up broker_up' : Bool) (r r' : Request) (user related : ObjectId) (s s' : Store)
    (e : Entry) (ms : List ((ℕ → Bool) × Message))
    → r.user_id ≡ some user
    → r.related_id ≡ some related
    → apply_karma_adjustment broker_up r s ≡ (ok (some e), s')
    → r'.user_id ≡ some user
    → r'.related_id ≡ some related
    → r'.source ≡ r.source
    → (apply_karma_adjustment broker_up' r' (run ms s')).1 ≡ run ms s'
unfolding apply_karma_adjustment
adjust_once broker_up broker_up' r r' user related s s' e ms u d q u' d' same =
    let first =
      apply_to-own user related r d broker_up r.amount s s' e
        (ap (λ v. apply_to broker_up v r.amount r s) (sym u) ∙ q) in
    let later = run-Finds user related r.source e ms s' first in
    ap (λ v. (apply_to broker_up' v r'.amount r' (run ms s')).1) u'
    ∙ apply_to-again user related r' d' broker_up' r'.amount (run ms s') e (rw same later)
