-- ===== src/Auth/Passwords.antt =====
-- `changePassword`, `forgotPassword` and `resetPassword` of
-- packages/user-service/src/controllers/auth.controller.js.
pub mod Revocation
pub mod Guesses
use iuh_exchange_be.Base.{ℕ, String, not, Option, none, some, [], ◌∷◌, ◌+◌, ◌*◌, if◌then◌else◌}
use iuh_exchange_be.Base.Text.{str_eq}
use iuh_exchange_be.Base.Result.{Result, ok, bad_request, not_found}
use iuh_exchange_be.Orders.Model.{ObjectId}
use iuh_exchange_be.Auth.Model.{
  Account, Env, Store, no_otp, Reply, done, reset_mail, Outcome, refuse, is_past, on_account,
  find_by_email, find_account,
}

-- The new hash; the session ends.
unfoldable pub set_password : Env → String → Account → Account
set_password e password a = record a {
  password_hash = e.hash_password password;
  refresh_token = none;
}

unfoldable pub change_account : Env → String → String → Account → Outcome
unfolding set_password refuse
change_account e old new a =
    if not (e.compare_password old a.password_hash)
    then refuse a bad_request
    else if str_eq old new
    then refuse a bad_request
    else record { answer = ok done; account = set_password e new a; mails = [] }

unfoldable pub change_password : Env → ObjectId → String → String → Store → Result Reply × Store
unfolding change_account on_account find_account
change_password e user old new s =
    on_account (find_account user s.accounts) not_found (change_account e old new) s

unfoldable pub forget_password : Env → String → Account → Outcome
unfolding refuse
forget_password e email a = if not a.is_verified then refuse a bad_request else record {
  answer = ok done;
  account = record a {
    password_reset_otp = record {
      text = some e.random_otp;
      expiry = some (e.now + 10 * 60 * 1000);
    };
  };
  mails = reset_mail email e.random_otp ∷ [];
}

unfoldable pub forgot_password : Env → String → Store → Result Reply × Store
unfolding forget_password on_account find_by_email
forgot_password e email s =
    on_account (find_by_email email s.accounts) not_found (forget_password e email) s

unfoldable pub clear_reset : Account → Account
unfolding no_otp
clear_reset a = record a { password_reset_otp = no_otp }

unfoldable pub check_reset : Env → String → String → String → ℕ → Account → Outcome
unfolding is_past clear_reset set_password refuse
check_reset e guess new code expiry a =
    if is_past e expiry
    then refuse (clear_reset a) bad_request
    else if not (str_eq code guess)
    then refuse a bad_request
    else record { answer = ok done; account = clear_reset (set_password e new a); mails = [] }

unfoldable pub reset_with : Env → String → String → Option String → Option ℕ → Account → Outcome
unfolding check_reset refuse
reset_with e guess new none t a = refuse a bad_request
reset_with e guess new (some code) none a = refuse a bad_request
reset_with e guess new (some code) (some t) a = check_reset e guess new code t a

unfoldable pub reset_account : Env → String → String → Account → Outcome
unfolding reset_with
reset_account e guess new a =
    reset_with e guess new a.password_reset_otp.text a.password_reset_otp.expiry a

unfoldable pub reset_password : Env → String → String → String → Store → Result Reply × Store
unfolding reset_account on_account find_by_email
reset_password e email guess new s =
    on_account (find_by_email email s.accounts) not_found (reset_account e guess new) s
