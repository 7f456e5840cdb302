-- ===== src/Auth/Passwords/Guesses.antt =====
-- How often the code of a reset can be guessed.
use iuh_exchange_be.Base.{ℕ, String, ◌≡◌, refl, ap, ◌∙◌, List, [], ◌∷◌, some, none, false, All}
use iuh_exchange_be.Base.Text.{str_eq, eq_refl}
use iuh_exchange_be.Base.Result.{ok, bad_request, not_found}
use iuh_exchange_be.Auth.Model.{Account, Env, Store, Outcome, done, find_by_email, is_past, refuse}
use iuh_exchange_be.Auth.Table.{on_account_found}
use iuh_exchange_be.Auth.Passwords.{
  set_password, clear_reset, check_reset, reset_with, reset_account, reset_password,
}

-- A request to set a new password: its clock, its guess and the password.
abbrev pub Guess : Type 0
Guess = Env × String × String

unfoldable pub run_resets : List Guess → String → Store → Store
unfolding reset_password
run_resets [] email s = s
run_resets (g ∷ gs) email s = run_resets gs email (reset_password g.0 email g.1 g.2 s).1

abbrev pub IsWrong : String → ℕ → Guess → Type 0
IsWrong code t g = (is_past g.0 t ≡ false) × (str_eq code g.1 ≡ false)

wrong_guess :
    (g : Guess) (code : String) (t : ℕ) (a : Account)
    → a.password_reset_otp.text ≡ some code
    → a.password_reset_otp.expiry ≡ some t
    → IsWrong code t g
    → reset_account g.0 g.1 g.2 a ≡ refuse a bad_request
unfolding reset_account reset_with check_reset
wrong_guess g code t a text expiry wrong = rw (text, expiry, wrong.0, wrong.1) refl

after_guesses :
    (gs : List Guess) (email code : String) (t : ℕ) (s : Store) (a : Account)
    → find_by_email email s.accounts ≡ some a
    → a.password_reset_otp.text ≡ some code
    → a.password_reset_otp.expiry ≡ some t
    → All (IsWrong code t) gs
    → find_by_email email (run_resets gs email s).accounts ≡ some a
unfolding run_resets reset_password refuse
after_guesses [] email code t s a found text expiry wrong = found
after_guesses (g ∷ gs) email code t s a found text expiry wrong =
    let made = wrong_guess g code t a text expiry wrong.0 in
    let sent =
      on_account_found email s a not_found (reset_account g.0 g.1 g.2) found
        (ap (λ (o : Outcome). o.account.id) made, ap (λ (o : Outcome). o.account.email) made) in
    after_guesses gs email code t (reset_password g.0 email g.1 g.2 s).1 a
      (sent.1 ∙ ap (λ (o : Outcome). some o.account) made) text expiry wrong.1

accepted :
    (e : Env) (code new : String) (t : ℕ) (a : Account)
    → a.password_reset_otp.text ≡ some code
    → a.password_reset_otp.expiry ≡ some t
    → is_past e t ≡ false
    → reset_account e code new a
      ≡ record { answer = ok done; account = clear_reset (set_password e new a); mails = [] }
unfolding reset_account reset_with check_reset
accepted e code new t a text expiry in_time = rw (text, expiry, in_time, eq_refl code) refl

-- Wrong codes for a reset are not counted: after any number of them, sent in time, the account is as
-- it was, and the right code, sent in time, sets the new password, ends the session and is used up.
pub reset_guesses_unlimited :
    (gs : List Guess) (email code new : String) (t : ℕ) (s : Store) (a : Account) (e : Env)
    → find_by_email email s.accounts ≡ some a
    → a.password_reset_otp.text ≡ some code
    → a.password_reset_otp.expiry ≡ some t
    → All (IsWrong code t) gs
    → is_past e t ≡ false
    → (find_by_email email (run_resets gs email s).accounts ≡ some a)
      × ((reset_password e email code new (run_resets gs email s)).0 ≡ ok done)
      × (find_by_email email (reset_password e email code new (run_resets gs email s)).1.accounts
          ≡ some (record a {
            password_hash = e.hash_password new;
            refresh_token = none;
            password_reset_otp = record { text = none; expiry = none };
          }))
unfolding reset_password reset_account reset_with check_reset set_password clear_reset
reset_guesses_unlimited gs email code new t s a e found text expiry wrong in_time =
    let still = after_guesses gs email code t s a found text expiry wrong in
    let made = accepted e code new t a text expiry in_time in
    let sent =
      on_account_found email (run_resets gs email s) a not_found (reset_account e code new) still
        (ap (λ (o : Outcome). o.account.id) made, ap (λ (o : Outcome). o.account.email) made) in
    (
      still,
      sent.0 ∙ ap (λ (o : Outcome). o.answer) made,
      sent.1 ∙ ap (λ (o : Outcome). some o.account) made,
    )
