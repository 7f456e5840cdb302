-- ===== src/Auth/Tests/Sessions.antt =====
-- Runs of refresh tokens and resets on concrete data.
use iuh_exchange_be.Base.{◌≡◌, ◌≢◌, refl, true, false, none, some, [], ◌∷◌}
use iuh_exchange_be.Base.Text.{eq_iff, str_append}
use iuh_exchange_be.Base.Result.{Result, ok, err, bad_request, unauthorized, type_error}
use iuh_exchange_be.Auth.Model.{
  Reply, Store, done, session, is_past, find_by_email, find_account, on_account,
}
use iuh_exchange_be.Auth.Login.{Credentials, login, is_locked, set_refresh_token}
use iuh_exchange_be.Auth.Tokens.{refresh}
use iuh_exchange_be.Auth.Tokens.Rotation.{refresh_rotates}
use iuh_exchange_be.Auth.Passwords.{reset_password, reset_account, reset_with, check_reset}
use iuh_exchange_be.Auth.Passwords.Revocation.{reset_revokes}
use iuh_exchange_be.Auth.Passwords.Guesses.{Guess, run_resets, reset_guesses_unlimited}
use iuh_exchange_be.Auth.Tests.Samples.{at_time, ann, ann_is_no_admin, store_of}

ann_found : find_by_email "ann" (store_of ann).accounts ≡ some ann
unfolding find_by_email
ann_found = refl

ann_by_id : find_account 1 (store_of ann).accounts ≡ some ann
unfolding find_account
ann_by_id = refl

abbrev after_refresh : Result Reply × Store
after_refresh = refresh (at_time 0 "") (some "old") (store_of ann)

old_is_not_new : str_append "~" "old" ≢ str_append "~" "refresh"
old_is_not_new h = cc ((eq_iff (str_append "~" "old") (str_append "~" "refresh")).1 h)

refresh_rotates_example :
    (after_refresh.0 ≡ ok (session "access" "refresh"))
    × (find_account 1 after_refresh.1.accounts ≡ some (set_refresh_token (at_time 0 "") ann))
    × ((refresh (at_time 5 "") (some "old") after_refresh.1).0 ≡ err unauthorized)
    × (find_account 1 (refresh (at_time 5 "") (some "old") after_refresh.1).1.accounts
        ≡ some (set_refresh_token (at_time 0 "") ann))
    × ((refresh (at_time 5 "") (some "refresh") after_refresh.1).0
        ≡ ok (session "access" "refresh"))
refresh_rotates_example =
    refresh_rotates (at_time 0 "") (at_time 5 "") "old" 1 (store_of ann) ann refl ann_by_id refl
      refl old_is_not_new refl refl

ann_resets : (reset_password (at_time 0 "") "ann" "111111" "better" (store_of ann)).0 ≡ ok done
unfolding reset_password on_account reset_account reset_with check_reset is_past find_by_email
ann_resets = refl

same_hash : (at_time 5 "").compare_password "better" (str_append "#" "better") ≡ true
same_hash = refl

free_now : is_locked (at_time 5 "") none ≡ false
unfolding is_locked
free_now = refl

abbrev new_login : Credentials
new_login = record { email = "ann"; password = "better"; admin_otp = none; admin_portal = false }

reset_revokes_example :
    (ann.password_reset_otp.text ≡ some "111111")
    × ((reset_password
          (at_time 5 "")
          "ann"
          "111111"
          "again"
          (reset_password (at_time 0 "") "ann" "111111" "better" (store_of ann)).1).0
        ≡ err bad_request)
    × ((refresh
          (at_time 5 "")
          (some "refresh")
          (reset_password (at_time 0 "") "ann" "111111" "better" (store_of ann)).1).0
        ≡ err type_error)
    × ((login
          (at_time 5 "")
          new_login
          (reset_password (at_time 0 "") "ann" "111111" "better" (store_of ann)).1).0
        ≡ ok (session "access" "refresh"))
reset_revokes_example =
    reset_revokes (at_time 0 "") (at_time 5 "") "ann" "111111" "better" "111111" "again" "refresh"
      new_login (store_of ann) ann ann_found ann_by_id ann_resets refl refl same_hash refl refl
      free_now ann_is_no_admin

in_time : is_past (at_time 10 "") 600000 ≡ false
unfolding is_past
in_time = refl

abbrev wrong_code : Guess
wrong_code = (at_time 10 "", "000000", "mine")

reset_guesses_unlimited_example :
    (find_by_email "ann" (run_resets (wrong_code ∷ wrong_code ∷ []) "ann" (store_of ann)).accounts
      ≡ some ann)
    × ((reset_password
          (at_time 10 "")
          "ann"
          "111111"
          "better"
          (run_resets (wrong_code ∷ wrong_code ∷ []) "ann" (store_of ann))).0
        ≡ ok done)
    × (find_by_email "ann"
          (reset_password
            (at_time 10 "")
            "ann"
            "111111"
            "better"
            (run_resets (wrong_code ∷ wrong_code ∷ []) "ann" (store_of ann))).1.accounts
        ≡ some (record ann {
          password_hash = "#better";
          refresh_token = none;
          password_reset_otp = record { text = none; expiry = none };
        }))
reset_guesses_unlimited_example =
    reset_guesses_unlimited (wrong_code ∷ wrong_code ∷ []) "ann" "111111" "better" 600000
      (store_of ann) ann (at_time 10 "") ann_found refl refl
      ((in_time, refl), ((in_time, refl), tt)) in_time
