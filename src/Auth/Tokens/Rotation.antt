-- ===== src/Auth/Tokens/Rotation.antt =====
-- A refresh token is good for one use.
use iuh_exchange_be.Base.{
  String, ◌≡◌, ◌≢◌, refl, ap, ◌∙◌, sym, [], some, Bool-cases, inl, inr, false,
}
use iuh_exchange_be.Base.Text.{str_eq, eq_iff, eq_refl}
use iuh_exchange_be.Base.Result.{Result, ok, err, unauthorized}
use iuh_exchange_be.Orders.Model.{ObjectId}
use iuh_exchange_be.Auth.Model.{
  Account, Env, Store, Reply, session, refuse, compare_token, payload_of, find_account, on_account,
  finish,
}
use iuh_exchange_be.Auth.Table.{find_account-save_account, find_account-id}
use iuh_exchange_be.Auth.Login.{set_refresh_token}
use iuh_exchange_be.Auth.Tokens.{refresh, refresh_as, refresh_account, rotate, rotate_if}

str_neq : (s t : String) → s ≢ t → str_eq s t ≡ false
str_neq s t no_eq = elim (Bool-cases (str_eq s t)) [
  | inl same ↦ absurd (no_eq ((eq_iff s t).0 same))
  | inr other ↦ other
]

-- `refresh` with a token of a user that exists.
refresh_found :
    (e : Env) (token : String) (id : ObjectId) (s : Store) (a : Account)
    → e.verify_token token ≡ some id
    → find_account id s.accounts ≡ some a
    → refresh e (some token) s ≡ finish s (refresh_account e token a)
unfolding refresh refresh_as on_account
refresh_found e token id s a valid found = rw (valid, found) refl

right_token :
    (e : Env) (token : String) (a : Account)
    → a.refresh_token ≡ some (e.hash_token token)
    → refresh_account e token a ≡ rotate e a
unfolding refresh_account compare_token rotate_if
right_token e token a kept = rw (kept, eq_refl (e.hash_token token)) refl

pub wrong_token :
    (e : Env) (token hash : String) (a : Account)
    → a.refresh_token ≡ some hash
    → e.hash_token token ≢ hash
    → refresh_account e token a ≡ refuse a unauthorized
unfolding refresh_account compare_token rotate_if
wrong_token e token hash a kept other = rw (kept, str_neq _ _ other) refl

-- What is answered, and what is kept of the account.
run_refresh :
    (e : Env) (token : String) (id : ObjectId) (s : Store) (a b : Account) (r : Result Reply)
    → e.verify_token token ≡ some id
    → find_account id s.accounts ≡ some a
    → refresh_account e token a ≡ record { answer = r; account = b; mails = [] }
    → b.id ≡ a.id
    → ((refresh e (some token) s).0 ≡ r)
      × (find_account id (refresh e (some token) s).1.accounts ≡ some b)
unfolding finish
run_refresh e token id s a b r valid found made same =
    let ran = refresh_found e token id s a valid found ∙ ap (finish s) made in
    (
      ap (λ (o : Result Reply × Store). o.0) ran,
      ap (λ (o : Result Reply × Store). find_account id o.1.accounts) ran
          ∙ find_account-save_account id a b s.accounts found
              (same ∙ find_account-id id s.accounts a found),
    )

-- A valid refresh token of an account, whose hash the account keeps, gives new tokens; the account
-- then keeps the hash of the new refresh token. After that a request with the old token, which is
-- valid still and whose hash is another one, is refused and leaves the account as it is, and a
-- request with the new one, which is valid and hashed as before, gives new tokens again.
pub refresh_rotates :
    (e e' : Env) (token : String) (id : ObjectId) (s : Store) (a : Account)
    → e.verify_token token ≡ some id
    → find_account id s.accounts ≡ some a
    → a.refresh_token ≡ some (e.hash_token token)
    → e'.verify_token token ≡ some id
    → e'.hash_token token ≢ e.hash_token (e.generate_refresh_token a.id)
    → e'.verify_token (e.generate_refresh_token a.id) ≡ some id
    → e'.hash_token (e.generate_refresh_token a.id) ≡ e.hash_token (e.generate_refresh_token a.id)
    → let after = refresh e (some token) s in
      (after.0
        ≡ ok (session (e.generate_access_token (payload_of a)) (e.generate_refresh_token a.id)))
      × (find_account id after.1.accounts ≡ some (set_refresh_token e a))
      × ((refresh e' (some token) after.1).0 ≡ err unauthorized)
      × (find_account id (refresh e' (some token) after.1).1.accounts
          ≡ some (set_refresh_token e a))
      × ((refresh e' (some (e.generate_refresh_token a.id)) after.1).0
          ≡ ok (session (e'.generate_access_token (payload_of a)) (e'.generate_refresh_token a.id)))
unfolding rotate set_refresh_token refuse payload_of
refresh_rotates e e' token id s a valid found kept valid_old other valid_new same =
    let b = set_refresh_token e a in
    let (answer, saved) =
      run_refresh e token id s a b _ valid found (right_token e token a kept) refl in
    let (refused, left) =
      run_refresh e' token id (refresh e (some token) s).1 b b (err unauthorized) valid_old saved
        (wrong_token e' token _ b refl other) refl in
    let (again, _) =
      run_refresh e' (e.generate_refresh_token a.id) id (refresh e (some token) s).1 b
        (set_refresh_token e' b) _ valid_new saved
        (right_token e' (e.generate_refresh_token a.id) b (ap some (sym same))) refl in
    (answer, saved, refused, left, again)
