-- ===== src/Auth/Login/Attempts.antt =====
-- Requests to sign in to one account, one after the other.
use iuh_exchange_be.Base.{
  ℕ, Bool, String, ◌≡◌, refl, ◌∙◌, Option, none, List, [], ◌∷◌, some, arith, true, false, not, ◌<◌,
  ◌&&◌,
}
use iuh_exchange_be.Base.Result.{Result, err, bad_request}
use iuh_exchange_be.Auth.Model.{Account, Env, Reply, refuse}
use iuh_exchange_be.Auth.Login.{
  Credentials, is_locked, lock, fail_login, check_admin_otp, send_admin_otp, start_session,
  pass_password, check_password, login_account,
}

abbrev pub Attempt : Type 0
Attempt = Env × Credentials

-- The requests of one account, one after the other.
unfoldable pub run_logins : List Attempt → Account → Account
unfolding login_account
run_logins [] a = a
run_logins (x ∷ xs) a = run_logins xs (login_account x.0 x.1 a).account

-- Every answer but a refusal with 400.
unfoldable pub is_heard : Result Reply → Bool
is_heard (err bad_request) = false
is_heard _ = true

-- Whether a request puts its password to the test: with a comparison that accepts every password it
-- is answered otherwise than with 400.
unfoldable pub is_tested : Attempt → Account → Bool
unfolding login_account is_heard
is_tested x a =
    is_heard (login_account (record x.0 { compare_password = λ p h. true }) x.1 a).answer

unfoldable pub passes_guards : Env → Account → Bool
passes_guards e a = a.is_verified && a.is_active && not (is_locked e a.lock_until)

heard_admin :
    (e : Env) (guess : Option String) (a : Account)
    → is_heard (check_admin_otp e guess a).answer ≡ true
unfolding is_heard check_admin_otp refuse start_session send_admin_otp
heard_admin e none a = refl
heard_admin e (some guess) a = ground arith

heard_passed :
    (e : Env) (c : Credentials) (a : Account) → is_heard (pass_password e c a).answer ≡ true
unfolding is_heard pass_password refuse start_session
heard_passed e c a = ground (arith, heard_admin e c.admin_otp a)

-- A right password is refused with 400 by the guards before the comparison only.
pub is_tested-guards : (x : Attempt) (a : Account) → is_tested x a ≡ passes_guards x.0 a
unfolding is_tested passes_guards login_account is_locked check_password refuse is_heard
is_tested-guards x a =
    ground (arith, heard_passed (record x.0 { compare_password = λ p h. true }) x.1 a)

abbrev pub IsWrong : String → Attempt → Type 0
IsWrong hash x = x.0.compare_password x.1.password hash ≡ false

pub untested :
    (x : Attempt) (a : Account) → is_tested x a ≡ false → (login_account x.0 x.1 a).account ≡ a
unfolding passes_guards login_account refuse
untested x a out = ground (arith, is_tested-guards x a)

pub wrong_password :
    (x : Attempt) (a : Account)
    → is_tested x a ≡ true
    → IsWrong a.password_hash x
    → login_account x.0 x.1 a ≡ fail_login x.0 a
unfolding passes_guards login_account check_password
wrong_password x a in_test wrong = ground (arith, is_tested-guards x a)

pub locked_untested :
    (x : Attempt) (a : Account) (until : ℕ)
    → a.lock_until ≡ some until
    → x.0.now < until
    → is_tested x a ≡ false
unfolding passes_guards is_locked
locked_untested x a until lock before = is_tested-guards x a ∙ rw lock (ground arith)
