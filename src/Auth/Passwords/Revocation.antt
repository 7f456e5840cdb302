-- ===== src/Auth/Passwords/Revocation.antt =====
-- What a new password ends.
use iuh_exchange_be.Base.{
  ℕ, String, ◌≡◌, refl, ap, ◌∙◌, sym, Option, some, none, [], Bool-cases, inl, inr, true, false,
}
use iuh_exchange_be.Base.Text.{str_eq, eq_iff}
use iuh_exchange_be.Base.Result.{Result, ok, err, bad_request, type_error}
use iuh_exchange_be.Orders.Model.{ObjectId}
use iuh_exchange_be.Auth.Model.{
  Account, Env, Store, Reply, Outcome, done, session, no_otp, refuse, is_past, is_admin, payload_of,
  compare_token, find_by_email, find_account, save_account, on_account, finish,
}
use iuh_exchange_be.Auth.Table.{SameKeys, find_by_email-save_account, find_account-save_account}
use iuh_exchange_be.Auth.Login.{
  Credentials, login, login_account, is_locked, check_password, pass_password, start_session,
}
use iuh_exchange_be.Auth.Tokens.{refresh, refresh_as, refresh_account, rotate_if}
use iuh_exchange_be.Auth.Passwords.{
  set_password, clear_reset, check_reset, reset_with, reset_account, reset_password,
}

-- The account after a reset.
abbrev renewed : Env → String → Account → Account
renewed e new a = clear_reset (set_password e new a)

right_code :
    (e : Env) (guess new : String) (text : Option String) (expiry : Option ℕ) (a : Account)
    → (reset_with e guess new text expiry a).answer ≡ ok done
    → (text ≡ some guess)
      × (reset_with e guess new text expiry a
          ≡ record { answer = ok done; account = renewed e new a; mails = [] })
unfolding reset_with check_reset refuse
right_code e guess new none t a h = cc
right_code e guess new (some code) none a h = cc
right_code e guess new (some code) (some t) a h = elim (Bool-cases (is_past e t)) [
  | inl late ↦ cc (rw late at h)
  | inr in_time ↦ elim (Bool-cases (str_eq code guess)) [
    | inl same ↦ (ap some ((eq_iff code guess).0 same), rw (in_time, same) refl)
    | inr other ↦ cc (rw (in_time, other) at h)
  ]
]

renewed_keys : (e : Env) (new : String) (a : Account) → SameKeys (renewed e new a) a
unfolding set_password clear_reset
renewed_keys e new a = (refl, refl)

-- A session that has no hash to compare with.
no_hash :
    (e : Env) (token : String) (b : Account)
    → b.refresh_token ≡ none
    → refresh_account e token b ≡ refuse b type_error
unfolding refresh_account compare_token rotate_if
no_hash e token b missing = rw missing refl

plain_login :
    (e : Env) (c : Credentials) (b : Account)
    → b.is_verified ≡ true
    → b.is_active ≡ true
    → is_locked e b.lock_until ≡ false
    → is_admin b.role ≡ false
    → e.compare_password c.password b.password_hash ≡ true
    → login_account e c b ≡ start_session e b
unfolding login_account check_password pass_password
plain_login e c b verified active free plain right = rw (verified, active, free, right, plain) refl

reset_found :
    (e : Env) (email guess new : String) (s : Store) (a : Account)
    → find_by_email email s.accounts ≡ some a
    → (reset_password e email guess new s).0 ≡ (reset_account e guess new a).answer
unfolding reset_password on_account finish
reset_found e email guess new s a found = rw found refl

reset_done :
    (e : Env) (email guess new : String) (s : Store) (a : Account)
    → find_by_email email s.accounts ≡ some a
    → (reset_password e email guess new s).0 ≡ ok done
    → (a.password_reset_otp.text ≡ some guess)
      × (reset_password e email guess new s
          ≡ finish s (record { answer = ok done; account = renewed e new a; mails = [] }))
unfolding reset_password on_account finish reset_account
reset_done e email guess new s a found answer =
    let (code, made) =
      right_code e guess new a.password_reset_otp.text a.password_reset_otp.expiry a
        (sym (reset_found e email guess new s a found) ∙ answer) in
    (code, rw found (ap (finish s) made))

refused :
    (e : Env) (token : String) (id : ObjectId) (s : Store) (b : Account)
    → e.verify_token token ≡ some id
    → find_account id s.accounts ≡ some b
    → b.refresh_token ≡ none
    → (refresh e (some token) s).0 ≡ err type_error
unfolding refresh refresh_as on_account finish refuse
refused e token id s b valid found missing =
    rw (valid, found) (ap (λ (o : Outcome). o.answer) (no_hash e token b missing))

opens_session :
    (e : Env) (c : Credentials) (s : Store) (b : Account)
    → find_by_email c.email s.accounts ≡ some b
    → login_account e c b ≡ start_session e b
    → (login e c s).0 ≡ (start_session e b).answer
unfolding login on_account finish
opens_session e c s b found opened = rw found (ap (λ (o : Outcome). o.answer) opened)

-- A reset of a password that succeeds was sent the code that the account waited for. After it every
-- reset, the same one included, is refused, and so is a valid refresh token of the user, with the
-- error of a property read on `null`; and where the account is verified, active, not locked and no
-- administrator's, a login with the new password opens a session.
pub reset_revokes :
    (e later : Env) (email guess new guess' new' token : String) (c : Credentials) (s : Store)
    (a : Account)
    → find_by_email email s.accounts ≡ some a
    → find_account a.id s.accounts ≡ some a
    → (reset_password e email guess new s).0 ≡ ok done
    → later.verify_token token ≡ some a.id
    → c.email ≡ email
    → later.compare_password c.password (e.hash_password new) ≡ true
    → a.is_verified ≡ true
    → a.is_active ≡ true
    → is_locked later a.lock_until ≡ false
    → is_admin a.role ≡ false
    → (a.password_reset_otp.text ≡ some guess)
      × ((reset_password later email guess' new' (reset_password e email guess new s).1).0
          ≡ err bad_request)
      × ((refresh later (some token) (reset_password e email guess new s).1).0 ≡ err type_error)
      × ((login later c (reset_password e email guess new s).1).0
          ≡ ok (
              session
                (later.generate_access_token (payload_of a))
                (later.generate_refresh_token a.id)))
unfolding finish set_password clear_reset no_otp reset_account reset_with refuse login start_session
    payload_of
reset_revokes e later email guess new guess' new' token c s a found by_id answer valid same right
      verified active free plain =
    let b = renewed e new a in
    let (code, ran) = reset_done e email guess new s a found answer in
    let found' = find_by_email-save_account email a b s.accounts found (renewed_keys e new a) in
    (
      code,
      ap (λ (o : Result Reply × Store). (reset_password later email guess' new' o.1).0) ran
          ∙ reset_found later email guess' new' _ b found',
      ap (λ (o : Result Reply × Store). (refresh later (some token) o.1).0) ran
          ∙ refused later token a.id _ b valid
              (find_account-save_account a.id a b s.accounts by_id refl) refl,
      ap (λ (o : Result Reply × Store). (login later c o.1).0) ran
          ∙ opens_session later c _ b
              (ap (λ m. find_by_email m (save_account b s.accounts)) same ∙ found')
              (plain_login later c b verified active free plain right),
    )
