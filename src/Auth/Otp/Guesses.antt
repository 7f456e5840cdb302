-- ===== src/Auth/Otp/Guesses.antt =====
-- How often the code of a registration can be guessed.
use iuh_exchange_be.Base.{
  ℕ, suc, Bool, String, ◌≡◌, refl, ap, ◌∙◌, List, [], ◌∷◌, some, arith, Bool-cases, inl, inr, true,
  none, false, ◌⊎◌, leb→le, if◌then◌else◌, All, length, leb, ◌+◌, ◌≤◌,
}
use iuh_exchange_be.Base.Text.{str_eq, eq_refl}
use iuh_exchange_be.Base.Result.{Result, ok, err, bad_request, not_found}
use iuh_exchange_be.Auth.Model.{
  Account, Env, Store, Reply, Outcome, done, find_by_email, is_past, refuse,
}
use iuh_exchange_be.Auth.Table.{SameKeys, on_account_found}
use iuh_exchange_be.Auth.Otp.{
  verify_otp, verify_account, check_pending, check_guess, count_guess, mark_verified,
}

-- An account that waits for a code.
abbrev pub Waits : String → ℕ → Account → Type 0
Waits code expiry a =
    (a.is_verified ≡ false) × (a.otp.text ≡ some code) × (a.otp.expiry ≡ some expiry)

-- Requests of one client, each with its clock and its guess.
unfoldable pub run_guesses : List (Env × String) → String → Store → Store
unfolding verify_otp
run_guesses [] email s = s
run_guesses (g ∷ gs) email s = run_guesses gs email (verify_otp g.0 email g.1 s).1

-- A wrong guess in time.
abbrev pub IsWrong : String → ℕ → Env × String → Type 0
IsWrong code expiry g = (is_past g.0 expiry ≡ false) × (str_eq code g.1 ≡ false)

waiting_account :
    (e : Env) (guess code : String) (t : ℕ) (a : Account)
    → Waits code t a
    → verify_account e guess a ≡ check_guess e guess code t a
unfolding verify_account check_pending
waiting_account e guess code t a w = rw (w.0, w.1, w.2) refl

-- The count after more guesses; from five on only that it is five or more matters.
abbrev Counted : ℕ → ℕ → ℕ → Type 0
Counted n before after = (after ≡ before + n) ⊎ ((5 ≤ after) × (5 ≤ before + n))

Counted-step : (n a b c : ℕ) → Counted 1 a b → Counted n b c → Counted (suc n) a c
Counted-step n a b c first later = grind arith

wrong_guess :
    (e : Env) (guess code : String) (t : ℕ) (a : Account)
    → Waits code t a
    → IsWrong code t (e, guess)
    → (b : Account) × ((verify_account e guess a).account ≡ b)
      × Waits code t b
      × SameKeys b a
      × Counted 1 a.otp_attempt_count b.otp_attempt_count
unfolding check_guess refuse count_guess
wrong_guess e guess code t a w wrong = elim (Bool-cases (leb 5 a.otp_attempt_count)) [
  | inl full ↦ (
    a,
    rw (waiting_account e guess code t a w, wrong.0, full) refl,
    w,
    (refl, refl),
    inr (
      omega (arith, leb→le 5 a.otp_attempt_count full),
      omega (arith, leb→le 5 a.otp_attempt_count full),
    ),
  )
  | inr left ↦ (
    count_guess a,
    rw (waiting_account e guess code t a w, wrong.0, left, wrong.1) refl,
    w,
    (refl, refl),
    inl refl,
  )
]

after_guesses :
    (gs : List (Env × String)) (email code : String) (t : ℕ) (s : Store) (a : Account)
    → find_by_email email s.accounts ≡ some a
    → Waits code t a
    → All (IsWrong code t) gs
    → (b : Account) × (find_by_email email (run_guesses gs email s).accounts ≡ some b)
      × Waits code t b
      × SameKeys b a
      × Counted (length gs) a.otp_attempt_count b.otp_attempt_count
unfolding run_guesses verify_otp
after_guesses [] email code t s a found w wrong = (a, found, w, (refl, refl), inl (omega arith))
after_guesses (g ∷ gs) email code t s a found w wrong =
    let (b, made, waits, keys, count) = wrong_guess g.0 g.1 code t a w wrong.0 in
    let saved =
      on_account_found email s a not_found (verify_account g.0 g.1) found (rw made keys) in
    let (c, end, waits', keys', count') =
      after_guesses gs email code t (verify_otp g.0 email g.1 s).1 b (saved.1 ∙ ap some made) waits
        wrong.1 in
    (
      c,
      end,
      waits',
      (keys'.0 ∙ keys.0, keys'.1 ∙ keys.1),
      Counted-step (length gs) a.otp_attempt_count b.otp_attempt_count c.otp_attempt_count count
          count',
    )

right_guess :
    (e : Env) (code : String) (t : ℕ) (a : Account)
    → Waits code t a
    → is_past e t ≡ false
    → verify_account e code a ≡ (
        if leb 5 a.otp_attempt_count
        then refuse a bad_request
        else record { answer = ok done; account = mark_verified a; mails = [] })
unfolding check_guess
right_guess e code t a w in_time =
    rw (waiting_account e code code t a w, in_time, eq_refl code) refl

same_limit : (n a b : ℕ) → Counted n a b → leb 5 b ≡ leb 5 (a + n)
same_limit n a b count = grind arith

two_ends :
    (v : Bool) (b : Account)
    → (if v
        then refuse b bad_request
        else record { answer = ok done; account = mark_verified b; mails = [] })
      ≡ record {
        answer = if v then err bad_request else ok done;
        account = if v then b else mark_verified b;
        mails = [];
      }
unfolding refuse
two_ends true b = refl
two_ends false b = refl

ends_keys : (v : Bool) (b : Account) → SameKeys (if v then b else mark_verified b) b
unfolding mark_verified
ends_keys true b = (refl, refl)
ends_keys false b = (refl, refl)

answered :
    (e : Env) (email code : String) (s : Store) (a b : Account) (r : Result Reply)
    → find_by_email email s.accounts ≡ some a
    → verify_account e code a ≡ record { answer = r; account = b; mails = [] }
    → SameKeys b a
    → ((verify_otp e email code s).0 ≡ r)
      × (find_by_email email (verify_otp e email code s).1.accounts ≡ some b)
unfolding verify_otp
answered e email code s a b r found made keys =
    let sent = on_account_found email s a not_found (verify_account e code) found (rw made keys) in
    (
      sent.0 ∙ ap (λ (o : Outcome). o.answer) made,
      sent.1 ∙ ap (λ (o : Outcome). some o.account) made,
    )

-- An account waits for a code that is still valid, and any number of wrong codes are sent in time.
-- The right code, sent in time after them, is accepted where the guesses that the account had
-- counted and the wrong codes are fewer than five, and the account is then verified, holds neither a
-- code nor its expiry, and counts from zero; otherwise it is refused and the account stays as it was
-- after the wrong codes.
pub verify_otp_limit :
    (gs : List (Env × String)) (email code : String) (t : ℕ) (s : Store) (a : Account) (e : Env)
    → find_by_email email s.accounts ≡ some a
    → Waits code t a
    → All (IsWrong code t) gs
    → is_past e t ≡ false
    → (b : Account) × (find_by_email email (run_guesses gs email s).accounts ≡ some b)
      × ((verify_otp e email code (run_guesses gs email s)).0
          ≡ (if leb 5 (a.otp_attempt_count + length gs) then err bad_request else ok done))
      × (find_by_email email (verify_otp e email code (run_guesses gs email s)).1.accounts
          ≡ some (
              if leb 5 (a.otp_attempt_count + length gs) then b else record b {
                is_verified = true;
                otp = record { text = none; expiry = none };
                otp_attempt_count = 0;
              }))
unfolding mark_verified
verify_otp_limit gs email code t s a e found w wrong in_time =
    let (b, end, waits, keys, count) = after_guesses gs email code t s a found w wrong in
    let v = leb 5 (a.otp_attempt_count + length gs) in
    let r = if v then err bad_request else ok done in
    let sent =
      answered e email code (run_guesses gs email s) b (if v then b else mark_verified b) r end
        (right_guess e code t b waits in_time
          ∙ ap
              (λ (l : Bool).
                if l
                then refuse b bad_request
                else record { answer = ok done; account = mark_verified b; mails = [] })
              (same_limit _ _ _ count)
          ∙ two_ends v b)
        (ends_keys v b) in
    (b, end, sent.0, sent.1)
