-- ===== src/Auth/Tokens.antt =====
-- `refreshToken` and `logout` of packages/user-service/src/controllers/auth.controller.js.
pub mod Rotation
use iuh_exchange_be.Base.{String, Bool, true, false, Option, none, some, []}
use iuh_exchange_be.Base.Result.{Result, ok, err, unauthorized}
use iuh_exchange_be.Orders.Model.{ObjectId}
use iuh_exchange_be.Auth.Model.{
  Account, Env, Store, Reply, done, session, Outcome, refuse, compare_token, payload_of, on_account,
  find_account, finish,
}
use iuh_exchange_be.Auth.Login.{set_refresh_token}

unfoldable pub rotate : Env → Account → Outcome
unfolding set_refresh_token payload_of
rotate e a = record {
  answer = ok (session (e.generate_access_token (payload_of a)) (e.generate_refresh_token a.id));
  account = set_refresh_token e a;
  mails = [];
}

unfoldable pub rotate_if : Env → Account → Result Bool → Outcome
unfolding rotate refuse
rotate_if e a (ok true) = rotate e a
rotate_if e a (ok false) = refuse a unauthorized
rotate_if e a (err thrown) = refuse a thrown

unfoldable pub refresh_account : Env → String → Account → Outcome
unfolding rotate_if compare_token
refresh_account e token a = rotate_if e a (compare_token e token a.refresh_token)

unfoldable pub refresh_as : Env → String → Option ObjectId → Store → Result Reply × Store
unfolding refresh_account on_account find_account
refresh_as e token none s = (err unauthorized, s)
refresh_as e token (some id) s =
    on_account (find_account id s.accounts) unauthorized (refresh_account e token) s

-- `token` is the cookie's or the body's.
unfoldable pub refresh : Env → Option String → Store → Result Reply × Store
unfolding refresh_as
refresh e none s = (err unauthorized, s)
refresh e (some token) s = refresh_as e token (e.verify_token token) s

unfoldable pub forget_token : Account → Account
forget_token a = record a { refresh_token = none }

-- `findByIdAndUpdate` does nothing without the document.
unfoldable pub log_out_found : Store → Option Account → Result Reply × Store
unfolding forget_token finish
log_out_found s none = (ok done, s)
log_out_found s (some a) =
    finish s (record { answer = ok done; account = forget_token a; mails = [] })

unfoldable pub log_out : ObjectId → Store → Result Reply × Store
unfolding log_out_found find_account
log_out user s = log_out_found s (find_account user s.accounts)
