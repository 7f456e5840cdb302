-- ===== src/Auth/Otp.antt =====
-- `verifyOtp` and `resendOtp` of packages/user-service/src/controllers/auth.controller.js.
pub mod Guesses
use iuh_exchange_be.Base.{
  ℕ, String, true, not, Option, none, some, [], ◌∷◌, ◌+◌, ◌*◌, leb, if◌then◌else◌,
}
use iuh_exchange_be.Base.Text.{str_eq}
use iuh_exchange_be.Base.Result.{Result, ok, bad_request, not_found}
use iuh_exchange_be.Auth.Model.{
  Account, Env, Store, no_otp, Reply, done, otp_mail, Outcome, refuse, is_past, on_account,
  find_by_email,
}

-- The code is forgotten and the guesses are counted from zero.
unfoldable pub clear_otp : Account → Account
unfolding no_otp
clear_otp a = record a { otp = no_otp; otp_attempt_count = 0 }

unfoldable pub count_guess : Account → Account
count_guess a = record a { otp_attempt_count = a.otp_attempt_count + 1 }

unfoldable pub mark_verified : Account → Account
unfolding clear_otp
mark_verified a = record (clear_otp a) { is_verified = true }

-- The checks from the expiry on.
unfoldable pub check_guess : Env → String → String → ℕ → Account → Outcome
unfolding is_past clear_otp refuse count_guess mark_verified
check_guess e guess code expiry a =
    if is_past e expiry
    then refuse (clear_otp a) bad_request
    else if leb 5 a.otp_attempt_count
    then refuse a bad_request
    else if not (str_eq code guess)
    then refuse (count_guess a) bad_request
    else record { answer = ok done; account = mark_verified a; mails = [] }

-- `if (!user.otp || !user.otpExpiry) throw …`
unfoldable pub check_pending : Env → String → Option String → Option ℕ → Account → Outcome
unfolding check_guess refuse
check_pending e guess none t a = refuse a bad_request
check_pending e guess (some code) none a = refuse a bad_request
check_pending e guess (some code) (some t) a = check_guess e guess code t a

unfoldable pub verify_account : Env → String → Account → Outcome
unfolding check_pending refuse
verify_account e guess a =
    if a.is_verified then refuse a bad_request else check_pending e guess a.otp.text a.otp.expiry a

unfoldable pub verify_otp : Env → String → String → Store → Result Reply × Store
unfolding verify_account on_account find_by_email
verify_otp e email guess s =
    on_account (find_by_email email s.accounts) not_found (verify_account e guess) s

unfoldable pub renew_otp : Env → Account → Account
renew_otp e a = record a {
  otp = record { text = some e.random_otp; expiry = some (e.now + 10 * 60 * 1000) };
  otp_attempt_count = 0;
}

unfoldable pub resend_to : Env → String → Account → Outcome
unfolding renew_otp refuse
resend_to e email a = if a.is_verified then refuse a bad_request else record {
  answer = ok done;
  account = renew_otp e a;
  mails = otp_mail email e.random_otp ∷ [];
}

unfoldable pub resend_otp : Env → String → Store → Result Reply × Store
unfolding resend_to on_account find_by_email
resend_otp e email s = on_account (find_by_email email s.accounts) not_found (resend_to e email) s
