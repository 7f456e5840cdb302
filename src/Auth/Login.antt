-- ===== src/Auth/Login.antt =====
-- `login` of packages/user-service/src/controllers/auth.controller.js.
pub mod Attempts
pub mod Rate
pub mod Lockout
pub mod Admin
use iuh_exchange_be.Base.{
  ℕ, String, Bool, false, not, Option, none, some, [], ◌∷◌, ◌+◌, ◌*◌, ◌&&◌, ◌||◌, leb, ltb,
  if◌then◌else◌, is_some,
}
use iuh_exchange_be.Base.Text.{str_eq}
use iuh_exchange_be.Base.Result.{Result, ok, bad_request, unauthorized, forbidden}
use iuh_exchange_be.Auth.Model.{
  Account, Env, Store, no_otp, Reply, session, two_factor, admin_mail, Outcome, refuse, is_admin,
  payload_of, on_account, find_by_email,
}

-- `admin_otp` is the header `x-admin-otp` or the body's field, absent where it is empty.
pub record Credentials : Type 0 where
  pub email : String
  pub password : String
  pub admin_otp : Option String
  pub admin_portal : Bool

-- `user.lockUntil && user.lockUntil > new Date()`
unfoldable pub is_locked : Env → Option ℕ → Bool
is_locked e none = false
is_locked e (some t) = ltb e.now t

unfoldable pub lock : Env → Account → Account
lock e a = record a { lock_until = some (e.now + 15 * 60 * 1000); failed_login_attempts = 0 }

unfoldable pub count_wrong_password : Account → Account
count_wrong_password a = record a { failed_login_attempts = a.failed_login_attempts + 1 }

-- A wrong password.
unfoldable pub fail_login : Env → Account → Outcome
unfolding lock count_wrong_password refuse
fail_login e a =
    if leb 5 (a.failed_login_attempts + 1)
    then refuse (lock e a) bad_request
    else refuse (count_wrong_password a) unauthorized

-- `if (user.failedLoginAttempts > 0 || user.lockUntil)`
unfoldable pub reset_failures : Account → Account
reset_failures a =
    if ltb 0 a.failed_login_attempts || is_some a.lock_until
    then record a { failed_login_attempts = 0; lock_until = none }
    else a

unfoldable pub set_refresh_token : Env → Account → Account
set_refresh_token e a = record a {
  refresh_token = some (e.hash_token (e.generate_refresh_token a.id));
}

-- The end of the handler: its two saves in a row leave the second one's account.
unfoldable pub start_session : Env → Account → Outcome
unfolding set_refresh_token reset_failures payload_of
start_session e a = record {
  answer = ok (session (e.generate_access_token (payload_of a)) (e.generate_refresh_token a.id));
  account = set_refresh_token e (reset_failures a);
  mails = [];
}

unfoldable pub send_admin_otp : Env → Account → Outcome
send_admin_otp e a = record {
  answer = ok (two_factor a.email);
  account = record a {
    admin_login_otp = record {
      text = some (e.hash_token e.random_otp);
      expiry = some (e.now + 10 * 60 * 1000);
    };
  };
  mails = admin_mail a.email e.random_otp ∷ [];
}

-- `otpValid`
unfoldable pub admin_otp_valid : Env → String → Option String → Option ℕ → Bool
admin_otp_valid e guess none t = false
admin_otp_valid e guess (some hash) none = false
admin_otp_valid e guess (some hash) (some t) = ltb e.now t && str_eq (e.hash_token guess) hash

unfoldable pub clear_admin_otp : Account → Account
unfolding no_otp
clear_admin_otp a = record a { admin_login_otp = no_otp }

unfoldable pub check_admin_otp : Env → Option String → Account → Outcome
unfolding send_admin_otp admin_otp_valid clear_admin_otp start_session refuse
check_admin_otp e none a = send_admin_otp e a
check_admin_otp e (some guess) a =
    if admin_otp_valid e guess a.admin_login_otp.text a.admin_login_otp.expiry
    then start_session e (clear_admin_otp a)
    else refuse a unauthorized

-- What follows a right password.
unfoldable pub pass_password : Env → Credentials → Account → Outcome
unfolding is_admin check_admin_otp start_session refuse
pass_password e c a =
    if is_admin a.role && not c.admin_portal
    then refuse a forbidden
    else if is_admin a.role && a.admin_two_factor_enabled
    then check_admin_otp e c.admin_otp a
    else start_session e a

unfoldable pub check_password : Env → Credentials → Account → Outcome
unfolding pass_password fail_login
check_password e c a =
    if e.compare_password c.password a.password_hash then pass_password e c a else fail_login e a

unfoldable pub login_account : Env → Credentials → Account → Outcome
unfolding is_locked check_password refuse
login_account e c a =
    if not a.is_verified
    then refuse a bad_request
    else if not a.is_active
    then refuse a bad_request
    else if is_locked e a.lock_until
    then refuse a bad_request
    else check_password e c a

unfoldable pub login : Env → Credentials → Store → Result Reply × Store
unfolding login_account on_account find_by_email
login e c s = on_account (find_by_email c.email s.accounts) unauthorized (login_account e c) s
