-- ===== src/Auth/Login/Lockout.antt =====
-- The lock of an account after wrong passwords.
use iuh_exchange_be.Base.{
  ℕ, ◌≡◌, refl, ap, sym, ◌∙◌, List, [], ◌∷◌, ◌++◌, some, none, arith, Bool-cases, inl, inr, true,
  false, All, length, ltb, ◌+◌, ◌*◌, ◌≤◌, ◌<◌,
}
use iuh_exchange_be.Base.Result.{ok, err, bad_request}
use iuh_exchange_be.Auth.Model.{Account, Env, Outcome, session, refuse, is_admin, payload_of}
use iuh_exchange_be.Auth.Login.{
  is_locked, lock, count_wrong_password, fail_login, reset_failures, set_refresh_token,
  start_session, pass_password, check_password, login_account,
}
use iuh_exchange_be.Auth.Login.Attempts.{
  Attempt, passes_guards, is_tested-guards, run_logins, is_tested, IsWrong, wrong_password,
}

counted : ℕ → Account → Account
counted n a = record a { failed_login_attempts = n }

failed :
    (e : Env) (a : Account)
    → a.failed_login_attempts + 1 < 5
    → (fail_login e a).account ≡ count_wrong_password a
unfolding fail_login refuse
failed e a few = ground arith

filled :
    (e : Env) (a : Account) → 5 ≤ a.failed_login_attempts + 1 → (fail_login e a).account ≡ lock e a
unfolding fail_login refuse
filled e a many = ground arith

-- The counter is none of the guards.
counted-tested :
    (n : ℕ) (x : Attempt) (a : Account) → is_tested x a ≡ true → is_tested x (counted n a) ≡ true
unfolding counted passes_guards
counted-tested n x a tests = is_tested-guards x (counted n a) ∙ sym (is_tested-guards x a) ∙ tests

All-counted :
    (n : ℕ) (xs : List Attempt) (a : Account)
    → All (λ x. is_tested x a ≡ true) xs
    → All (λ x. is_tested x (counted n a) ≡ true) xs
All-counted n [] a tests = tt
All-counted n (x ∷ xs) a tests = (counted-tested n x a tests.0, All-counted n xs a tests.1)

after_wrong :
    (xs : List Attempt) (a : Account)
    → All (IsWrong a.password_hash) xs
    → All (λ x. is_tested x a ≡ true) xs
    → a.failed_login_attempts + length xs < 5
    → run_logins xs a ≡ counted (a.failed_login_attempts + length xs) a
unfolding run_logins counted fail_login refuse count_wrong_password
after_wrong [] a wrong tests few = ap (λ n. record a { failed_login_attempts = n }) (omega arith)
after_wrong (x ∷ xs) a wrong tests few =
    ap (λ (o : Outcome). run_logins xs o.account) (wrong_password x a tests.0 wrong.0)
    ∙ ap (run_logins xs) (failed x.0 a (omega (arith, few)))
    ∙ after_wrong xs (count_wrong_password a) wrong.1
        (All-counted (a.failed_login_attempts + 1) xs a tests.1) (omega (arith, few))
    ∙ ap (λ n. record a { failed_login_attempts = n }) (omega arith)

may_sign_in :
    (x : Attempt) (a : Account)
    → is_tested x a ≡ true
    → (a.is_verified ≡ true) × (a.is_active ≡ true)
unfolding passes_guards
may_sign_in x a tests = ground (arith, is_tested-guards x a)

before_lem : (e : Env) (t : ℕ) → e.now < t → ltb e.now t ≡ true
before_lem e t h = ground arith

after_lem : (e : Env) (t : ℕ) → t ≤ e.now → ltb e.now t ≡ false
after_lem e t h = ground arith

locked_out :
    (x : Attempt) (b : Account) (until : ℕ)
    → b.lock_until ≡ some until
    → x.0.now < until
    → login_account x.0 x.1 b ≡ refuse b bad_request
unfolding login_account is_locked
locked_out x b until held before = elim (Bool-cases b.is_verified) [
  | inl v ↦ elim (Bool-cases b.is_active) [
    | inl w ↦ rw (v, w, held, before_lem x.0 until before) refl
    | inr w ↦ rw (v, w) refl
  ]
  | inr v ↦ rw v refl
]

let_in :
    (x : Attempt) (b : Account) (until : ℕ)
    → b.is_verified ≡ true
    → b.is_active ≡ true
    → b.lock_until ≡ some until
    → until ≤ x.0.now
    → is_admin b.role ≡ false
    → x.0.compare_password x.1.password b.password_hash ≡ true
    → login_account x.0 x.1 b ≡ start_session x.0 b
unfolding login_account is_locked check_password pass_password
let_in x b until verified active held after plain right =
    rw (verified, active, held, after_lem x.0 until after, right, plain) refl

run_logins-append :
    (xs : List Attempt) (y : Attempt) (a : Account)
    → run_logins (xs ++ (y ∷ [])) a ≡ (login_account y.0 y.1 (run_logins xs a)).account
unfolding run_logins
run_logins-append [] y a = refl
run_logins-append (x ∷ xs) y a = run_logins-append xs y (login_account x.0 x.1 a).account

fifth_wrong :
    (xs : List Attempt) (last : Attempt) (a : Account)
    → All (IsWrong a.password_hash) xs
    → All (λ x. is_tested x a ≡ true) xs
    → IsWrong a.password_hash last
    → is_tested last a ≡ true
    → a.failed_login_attempts + length xs ≡ 4
    → run_logins (xs ++ (last ∷ [])) a ≡ lock last.0 a
unfolding counted lock
fifth_wrong xs last a wrong tests wrong' tests' four =
    let b = counted (a.failed_login_attempts + length xs) a in
    run_logins-append xs last a
    ∙ ap (λ c. (login_account last.0 last.1 c).account)
        (after_wrong xs a wrong tests (omega (arith, four)))
    ∙ ap (λ (o : Outcome). o.account)
        (wrong_password last b (counted-tested _ last a tests') wrong')
    ∙ filled last.0 b (omega (arith, four))

-- An account that may sign in and is no administrator's gets a wrong password while its counter
-- stands at four: four in all were counted, some of them in the requests `xs` before. Then it is
-- locked for a quarter of an hour: a request `early` before that has passed is refused, whatever its
-- password, and changes nothing; a request `late` from then on with the right password opens a
-- session, stores the hash of its refresh token, and clears the lock.
pub lockout :
    (xs : List Attempt) (last early late : Attempt) (a : Account)
    → All (IsWrong a.password_hash) xs
    → All (λ x. is_tested x a ≡ true) xs
    → IsWrong a.password_hash last
    → is_tested last a ≡ true
    → a.failed_login_attempts + length xs ≡ 4
    → early.0.now < last.0.now + 15 * 60 * 1000
    → last.0.now + 15 * 60 * 1000 ≤ late.0.now
    → is_admin a.role ≡ false
    → late.0.compare_password late.1.password a.password_hash ≡ true
    → (b : Account) × (run_logins (xs ++ (last ∷ [])) a ≡ b)
      × ((login_account early.0 early.1 b).answer ≡ err bad_request)
      × ((login_account early.0 early.1 b).account ≡ b)
      × ((login_account late.0 late.1 b).answer
          ≡ ok (
              session
                (late.0.generate_access_token (payload_of a))
                (late.0.generate_refresh_token a.id)))
      × ((login_account late.0 late.1 b).account.refresh_token
          ≡ some (late.0.hash_token (late.0.generate_refresh_token a.id)))
      × ((login_account late.0 late.1 b).account.lock_until ≡ none)
unfolding lock refuse start_session set_refresh_token reset_failures payload_of
lockout xs last early late a wrong tests wrong' tests' four before after plain right =
    let b = lock last.0 a in
    let until = last.0.now + 15 * 60 * 1000 in
    let (verified, active) = may_sign_in last a tests' in
    let out = locked_out early b until refl before in
    let opened = let_in late b until verified active refl after plain right in
    (
      b,
      fifth_wrong xs last a wrong tests wrong' tests' four,
      ap (λ (o : Outcome). o.answer) out,
      ap (λ (o : Outcome). o.account) out,
      ap (λ (o : Outcome). o.answer) opened,
      ap (λ (o : Outcome). o.account.refresh_token) opened,
      ap (λ (o : Outcome). o.account.lock_until) opened,
    )
