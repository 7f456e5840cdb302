-- ===== src/Auth/Tests.antt =====
-- Runs of the accounts on concrete data.
mod Samples
mod Sessions
use iuh_exchange_be.Base.{
  ℕ, String, Bool, ◌≡◌, ◌≢◌, ◌↔◌, refl, true, false, Option, none, some, List, [], ◌∷◌, ◌++◌,
  if◌then◌else◌, arith, ◌≤◌, ◌<◌, ◌+◌, ltb, leb, any, ◌==◌,
}
use iuh_exchange_be.Base.Text.{str_eq, str_append, eq_iff, trim}
use iuh_exchange_be.Base.Result.{Result, ok, err, bad_request, unauthorized, type_error}
use iuh_exchange_be.Auth.Model.{
  Role, student, admin, Otp, no_otp, Account, Payload, Env, Store, done, session, is_past, is_admin,
  collides, payload_of, otp_mail, registered, create_account, find_by_email, find_account,
  save_account,
}
use iuh_exchange_be.Auth.Register.{
  Registration, register, register_as, insert_account, new_account, normalize,
  get_student_id_from_email, match_student_id, span, is_digit, text_length, follows_id,
  is_student_mailbox,
}
use iuh_exchange_be.Auth.Register.Pattern.{student_address, IsStudent, match_student_id_iff}
use iuh_exchange_be.Auth.Register.Laws.{register_checked}
use iuh_exchange_be.Auth.Otp.{verify_otp, mark_verified}
use iuh_exchange_be.Auth.Otp.Guesses.{run_guesses, verify_otp_limit}
use iuh_exchange_be.Auth.Login.{
  Credentials, login, login_account, is_locked, check_password, pass_password, check_admin_otp,
  admin_otp_valid, start_session, set_refresh_token, reset_failures,
}
use iuh_exchange_be.Auth.Login.Attempts.{Attempt, run_logins, is_tested}
use iuh_exchange_be.Auth.Login.Rate.{tested, login_rate}
use iuh_exchange_be.Auth.Login.Lockout.{lockout}
use iuh_exchange_be.Auth.Login.Admin.{admin_code_once}
use iuh_exchange_be.Auth.Tokens.{refresh}
use iuh_exchange_be.Auth.Tokens.Rotation.{refresh_rotates}
use iuh_exchange_be.Auth.Passwords.{
  reset_password, reset_account, reset_with, check_reset, set_password, clear_reset,
}
use iuh_exchange_be.Auth.Passwords.Revocation.{reset_revokes}
use iuh_exchange_be.Auth.Passwords.Guesses.{run_resets, reset_guesses_unlimited}
use iuh_exchange_be.Auth.Tests.Samples.{
  at_time, ann, ann_is_no_admin, newcomer, boss, store_of, with_password, form,
}

match_student_id_iff_example :
    (match_student_id "12345678.an@student.iuh.edu.vn" ≡ some "12345678") ↔ (
      (name : String) × ("12345678.an@student.iuh.edu.vn" ≡ student_address "12345678" name)
      × IsStudent "12345678" name)
match_student_id_iff_example = match_student_id_iff "12345678.an@student.iuh.edu.vn" "12345678"

found_student : match_student_id "12345678.an@student.iuh.edu.vn" ≡ some "12345678"
unfolding match_student_id span is_digit text_length follows_id is_student_mailbox
found_student = refl

form_accepted :
    (register (at_time 0 "444444") form (store_of ann)).0
    ≡ ok (registered "87654321.an@student.iuh.edu.vn" "An")
unfolding register register_as insert_account new_account normalize get_student_id_from_email
    match_student_id span is_digit text_length follows_id is_student_mailbox trim find_by_email
    create_account collides
form_accepted = refl

register_checked_example :
    (name : String) × (a : Account) × (normalize
        (at_time 0 "444444")
        (normalize (at_time 0 "444444") form.email)
      ≡ student_address (trim form.student_id) name)
    × IsStudent (trim form.student_id) name
    × (any (collides a) (ann ∷ []) ≡ false)
    × ((register (at_time 0 "444444") form (store_of ann)).1 ≡ record {
      accounts = ann ∷ a ∷ [];
      mailed = otp_mail (normalize (at_time 0 "444444") form.email) "444444" ∷ [];
    })
    × (a.email ≡ normalize (at_time 0 "444444") form.email)
    × (a.student_id ≡ trim form.student_id)
    × (a.is_verified ≡ false)
    × (a.otp.text ≡ some "444444")
    × (a.otp.expiry ≡ some 600000)
register_checked_example =
    register_checked (at_time 0 "444444") form (store_of ann)
      (registered "87654321.an@student.iuh.edu.vn" "An") form_accepted

ann_found : (a : Account) → a.email ≡ "ann" → find_by_email "ann" (store_of a).accounts ≡ some a
unfolding find_by_email
ann_found a h = rw h refl

on_time : (n : ℕ) → ltb n 600001 ≡ true → is_past (at_time n "") 600000 ≡ false
unfolding is_past
on_time n h = ground arith

abbrev guess : Env × String
guess = (at_time 10 "", "000000")

verify_otp_limit_example :
    (b : Account) × (find_by_email "ann"
        (run_guesses (guess ∷ []) "ann" (store_of newcomer)).accounts
      ≡ some b)
    × ((verify_otp
          (at_time 20 "")
          "ann"
          "222222"
          (run_guesses (guess ∷ []) "ann" (store_of newcomer))).0
        ≡ (if leb 5 (0 + 1) then err bad_request else ok done))
    × (find_by_email "ann"
          (verify_otp
            (at_time 20 "")
            "ann"
            "222222"
            (run_guesses (guess ∷ []) "ann" (store_of newcomer))).1.accounts
        ≡ some (
            if leb 5 (0 + 1) then b else record b {
              is_verified = true;
              otp = record { text = none; expiry = none };
              otp_attempt_count = 0;
            }))
verify_otp_limit_example =
    verify_otp_limit (guess ∷ []) "ann" "222222" 600000 (store_of newcomer) newcomer (at_time 20 "")
      (ann_found newcomer refl) (refl, refl, refl) ((on_time 10 refl, refl), tt) (on_time 20 refl)

abbrev wrong_attempt : Attempt
wrong_attempt = (at_time 10 "", with_password "wrong")

login_rate_example : tested (wrong_attempt ∷ wrong_attempt ∷ []) ann + 4 ≤ 5
login_rate_example =
    login_rate (wrong_attempt ∷ wrong_attempt ∷ []) 0 ann (refl, (refl, tt))
      ((omega arith, omega arith), ((omega arith, omega arith), tt)) (omega arith)

may_try : is_tested wrong_attempt ann ≡ true
unfolding is_tested is_locked
may_try = refl

quarter_later : 10 + 900000 ≤ (at_time 900010 "").now
quarter_later = omega arith

lockout_example :
    (b : Account) × (run_logins (wrong_attempt ∷ []) ann ≡ b)
    × ((login_account (at_time 20 "") (with_password "secret") b).answer ≡ err bad_request)
    × ((login_account (at_time 20 "") (with_password "secret") b).account ≡ b)
    × ((login_account (at_time 900010 "") (with_password "secret") b).answer
        ≡ ok (session "access" "refresh"))
    × ((login_account (at_time 900010 "") (with_password "secret") b).account.refresh_token
        ≡ some "~refresh")
    × ((login_account (at_time 900010 "") (with_password "secret") b).account.lock_until ≡ none)
lockout_example =
    lockout [] wrong_attempt (at_time 20 "", with_password "secret")
      (at_time 900010 "", with_password "secret") ann tt tt refl may_try refl (omega arith)
      quarter_later ann_is_no_admin refl

boss_signs_in :
    (login_account (at_time 10 "") (with_password "secret") boss).answer
    ≡ ok (session "access" "refresh")
unfolding login_account is_locked check_password pass_password check_admin_otp admin_otp_valid
    start_session is_admin
boss_signs_in = refl

boss_is_admin : is_admin boss.role ≡ true
unfolding is_admin
boss_is_admin = refl

admin_code_once_example :
    (guess : String) × (t : ℕ) × (str_eq "#secret" "#secret" ≡ true)
    × (true ≡ true)
    × (some "333333" ≡ some guess)
    × (some "~333333" ≡ some (str_append "~" guess))
    × (some 600000 ≡ some t)
    × (10 < t)
    × ((e' : Env) (c' : Credentials) (x' y' : String)
        → (login_account e' c'
            (login_account (at_time 10 "") (with_password "secret") boss).account).answer
          ≢ ok (session x' y'))
admin_code_once_example =
    admin_code_once (at_time 10 "") (with_password "secret") boss "access" "refresh" boss_is_admin
      refl boss_signs_in
