-- ===== src/Auth/Login/Admin.antt =====
-- The second factor of administrators.
use iuh_exchange_be.Base.{
  ℕ, String, ◌≡◌, ◌≢◌, refl, ap, ◌∙◌, sym, Option, some, none, arith, Bool-cases, Option-cases, inl,
  inr, true, ltb, ltb→lt, ◌<◌,
}
use iuh_exchange_be.Base.Text.{str_eq, eq_iff}
use iuh_exchange_be.Base.Result.{ok}
use iuh_exchange_be.Auth.Model.{Account, Env, Otp, Outcome, no_otp, session, refuse, is_admin}
use iuh_exchange_be.Auth.Login.{
  Credentials, admin_otp_valid, send_admin_otp, clear_admin_otp, set_refresh_token, reset_failures,
  check_admin_otp, start_session, pass_password, check_password, fail_login, login_account,
}

admin_otp_valid_lem :
    (e : Env) (guess : String) (text : Option String) (expiry : Option ℕ)
    → admin_otp_valid e guess text expiry ≡ true
    → (t : ℕ) × (text ≡ some (e.hash_token guess)) × (expiry ≡ some t) × (e.now < t)
unfolding admin_otp_valid
admin_otp_valid_lem e guess none t h = cc
admin_otp_valid_lem e guess (some hash) none h = cc
admin_otp_valid_lem e guess (some hash) (some t) h = elim (Bool-cases (ltb e.now t)) [
  | inl before ↦ elim (Bool-cases (str_eq (e.hash_token guess) hash)) [
    | inl same ↦
        (t, ap some (sym ((eq_iff (e.hash_token guess) hash).0 same)), refl, ltb→lt e.now t before)
    | inr other ↦ ground arith
  ]
  | inr late ↦ ground arith
]

-- A session of an account starts where the password was right.
session_passed :
    (e : Env) (c : Credentials) (a : Account) (x y : String)
    → (login_account e c a).answer ≡ ok (session x y)
    → (e.compare_password c.password a.password_hash ≡ true)
      × (login_account e c a ≡ pass_password e c a)
unfolding login_account check_password refuse fail_login
session_passed e c a x y h = ground arith

session_code :
    (e : Env) (c : Credentials) (a : Account) (x y : String)
    → is_admin a.role ≡ true
    → a.admin_two_factor_enabled ≡ true
    → (pass_password e c a).answer ≡ ok (session x y)
    → (guess : String) × (c.admin_portal ≡ true)
      × (c.admin_otp ≡ some guess)
      × (admin_otp_valid e guess a.admin_login_otp.text a.admin_login_otp.expiry ≡ true)
      × (pass_password e c a ≡ start_session e (clear_admin_otp a))
unfolding pass_password check_admin_otp refuse send_admin_otp
session_code e c a x y boss two h = elim (Bool-cases c.admin_portal) [
  | inr outside ↦ cc (rw (boss, outside) at h)
  | inl portal ↦ elim (Option-cases c.admin_otp) [
    | inl missing ↦ cc (rw (boss, portal, two, missing) at h)
    | inr (guess, given) ↦
        elim (Bool-cases
          (admin_otp_valid e guess a.admin_login_otp.text a.admin_login_otp.expiry)) [
            | inl valid ↦ (guess, portal, given, valid, rw (boss, portal, two, given, valid) refl)
            | inr bad ↦ cc (rw (boss, portal, two, given, bad) at h)
          ]
  ]
]

cleared_code :
    (e : Env) (a : Account)
    → ((start_session e (clear_admin_otp a)).account.admin_login_otp ≡ no_otp)
      × ((start_session e (clear_admin_otp a)).account.role ≡ a.role)
      × ((start_session e (clear_admin_otp a)).account.admin_two_factor_enabled
          ≡ a.admin_two_factor_enabled)
unfolding start_session set_refresh_token clear_admin_otp reset_failures
cleared_code e a = (ground arith, ground arith, ground arith)

no_code_no_session :
    (e : Env) (c : Credentials) (b : Account) (x y : String)
    → is_admin b.role ≡ true
    → b.admin_two_factor_enabled ≡ true
    → b.admin_login_otp ≡ no_otp
    → (login_account e c b).answer ≢ ok (session x y)
unfolding no_otp
no_code_no_session e c b x y boss two cleared h =
    let (right, passed) = session_passed e c b x y h in
    let (guess, portal, given, valid, opened) =
      session_code e c b x y boss two (ap (λ (o : Outcome). o.answer) (sym passed) ∙ h) in
    let (t, text, expiry, before) =
      admin_otp_valid_lem e guess b.admin_login_otp.text b.admin_login_otp.expiry valid in
    let no_text = sym (ap (λ (o : Otp). o.text) cleared) ∙ text in cc

-- A request that opens a session for an administrator with the second factor came through the admin
-- portal with the right password and with a code: the one whose hash the account keeps, before its
-- end. The code is used up: on the account that is saved no request at all opens a session, until a
-- new code is stored.
pub admin_code_once :
    (e : Env) (c : Credentials) (a : Account) (x y : String)
    → is_admin a.role ≡ true
    → a.admin_two_factor_enabled ≡ true
    → (login_account e c a).answer ≡ ok (session x y)
    → (guess : String) × (t : ℕ) × (e.compare_password c.password a.password_hash ≡ true)
      × (c.admin_portal ≡ true)
      × (c.admin_otp ≡ some guess)
      × (a.admin_login_otp.text ≡ some (e.hash_token guess))
      × (a.admin_login_otp.expiry ≡ some t)
      × (e.now < t)
      × ((e' : Env) (c' : Credentials) (x' y' : String)
          → (login_account e' c' (login_account e c a).account).answer ≢ ok (session x' y'))
admin_code_once e c a x y boss two h =
    let (right, passed) = session_passed e c a x y h in
    let (guess, portal, given, valid, opened) =
      session_code e c a x y boss two (ap (λ (o : Outcome). o.answer) (sym passed) ∙ h) in
    let (t, text, expiry, before) =
      admin_otp_valid_lem e guess a.admin_login_otp.text a.admin_login_otp.expiry valid in
    let left = ap (λ (o : Outcome). o.account) (passed ∙ opened) in
    let (cleared, role, factor) = cleared_code e a in
    (
      guess,
      t,
      right,
      portal,
      given,
      text,
      expiry,
      before,
      λ e' c' x' y'.
          no_code_no_session e' c' (login_account e c a).account x' y'
            (ap (λ (b : Account). is_admin b.role) left ∙ ap is_admin role ∙ boss)
            (ap (λ (b : Account). b.admin_two_factor_enabled) left ∙ factor ∙ two)
            (ap (λ (b : Account). b.admin_login_otp) left ∙ cleared),
    )
