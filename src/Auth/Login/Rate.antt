-- ===== src/Auth/Login/Rate.antt =====
-- How often passwords are tried.
use iuh_exchange_be.Base.{
  ℕ, ◌≡◌, refl, List, [], ◌∷◌, some, arith, Bool-cases, inl, inr, All, leb, ◌+◌, ◌*◌, ◌≤◌, ◌<◌,
  if◌then◌else◌,
}
use iuh_exchange_be.Auth.Model.{Account, refuse}
use iuh_exchange_be.Auth.Login.{lock, count_wrong_password, fail_login, login_account}
use iuh_exchange_be.Auth.Login.Attempts.{
  Attempt, is_tested, IsWrong, untested, wrong_password, locked_untested,
}

-- How many requests put their password to the test.
unfoldable pub tested : List Attempt → Account → ℕ
unfolding is_tested login_account
tested [] a = 0
tested (x ∷ xs) a = (if is_tested x a then 1 else 0) + tested xs (login_account x.0 x.1 a).account

-- A clock within the quarter of an hour from a time.
abbrev pub IsWithin : ℕ → Attempt → Type 0
IsWithin from x = (from ≤ x.0.now) × (x.0.now < from + 15 * 60 * 1000)

tested_locked :
    (xs : List Attempt) (from until : ℕ) (a : Account)
    → a.lock_until ≡ some until
    → from + 15 * 60 * 1000 ≤ until
    → All (IsWithin from) xs
    → tested xs a ≡ 0
unfolding tested
tested_locked [] from until a lock late within = refl
tested_locked (x ∷ xs) from until a lock late within =
    let out = locked_untested x a until lock (omega (arith, within.0.1)) in
    rw (out, untested x a out, tested_locked xs from until a lock late within.1) refl

-- Requests with wrong passwords for an account whose counter stands below five come within a
-- quarter of an hour. At most five of them, less those that were counted before, put their password
-- to the test: they would have been answered otherwise than with 400 if it were the right one.
pub login_rate :
    (xs : List Attempt) (from : ℕ) (a : Account)
    → All (IsWrong a.password_hash) xs
    → All (IsWithin from) xs
    → a.failed_login_attempts < 5
    → tested xs a + a.failed_login_attempts ≤ 5
unfolding tested fail_login refuse lock count_wrong_password
login_rate [] from a wrong within few = omega arith
login_rate (x ∷ xs) from a wrong within few = elim (Bool-cases (is_tested x a)) [
  | inr out ↦ rw (out, untested x a out) (omega (arith, login_rate xs from a wrong.1 within.1 few))
  | inl in_test ↦
      rw (in_test, wrong_password x a in_test wrong.0)
        (elim (Bool-cases (leb 5 (a.failed_login_attempts + 1))) [
          | inl full ↦
              rw
                (
                  full,
                  tested_locked xs from _ (lock x.0 a) refl (omega (arith, within.0.0)) within.1,
                )
                (omega (arith, few))
          | inr more ↦ rw more (
              omega (
                arith,
                login_rate xs from (count_wrong_password a) wrong.1 within.1 (ground arith),
              ))
        ])
]
