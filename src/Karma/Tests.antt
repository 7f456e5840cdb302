-- ===== src/Karma/Tests.antt =====
-- Runs of the karma service on concrete data.
use iuh_exchange_be.Base.{ℕ, ◌≡◌, refl, Bool, true, false, none, some, List, [], ◌∷◌, value_or}
use iuh_exchange_be.Base.Int.{pos, negsuc, ◌+ℤ◌, leb_ℤ}
use iuh_exchange_be.Base.Result.{ok}
use iuh_exchange_be.Karma.Policy.{User, can_post, has, karma_of}
use iuh_exchange_be.Karma.Service.{
  Entry, Store, Message, order_completed, karma_penalty, adjusted, apply_karma_adjustment,
  seller_request, find_user, find_entry, new_entry, save_user, each_message,
}
use iuh_exchange_be.Karma.Permissions.{min_karma, adjusted_permissions}
use iuh_exchange_be.Karma.Ledger.{karma_at, total, run, run_balanced}
use iuh_exchange_be.Karma.Once.{adjust_once}

abbrev up : ℕ → Bool
up n = true

abbrev newcomer : User
newcomer = record { id = 2; karma_point = none; permissions = none }

abbrev campus : Store
campus = record { users = newcomer ∷ []; history = []; published = [] }

-- The sale of order 5 by user 2, told twice, and a penalty; user 1 is unknown.
abbrev messages : List ((ℕ → Bool) × Message)
messages =
    (up, order_completed 5 2 1)
    ∷ (up, order_completed 5 2 1)
    ∷ (up, karma_penalty (some 2) (pos 30) "" (some 8))
    ∷ []

karma_at_end : karma_at 2 (run messages campus).users ≡ negsuc 9
unfolding each_message find_user find_entry ◌+ℤ◌
karma_at_end = refl

run_balanced_example :
    karma_at 2 (run messages campus).users
    ≡ karma_at 2 campus.users +ℤ total 2 (run messages campus).history
run_balanced_example = run_balanced messages campus 2 refl

adjusted_permissions_example :
    has can_post (value_or (adjusted newcomer (negsuc 14)).permissions [])
    ≡ leb_ℤ (min_karma can_post) (karma_of newcomer +ℤ negsuc 14)
adjusted_permissions_example = adjusted_permissions newcomer (negsuc 14) can_post

abbrev first_entry : Entry
first_entry = new_entry newcomer (pos 10) (seller_request 5 2)

abbrev sold : Store
sold = record {
  users = save_user (adjusted newcomer (pos 10)) campus.users;
  history = first_entry ∷ [];
  published = first_entry ∷ [];
}

apply_runs : apply_karma_adjustment true (seller_request 5 2) campus ≡ (ok (some first_entry), sold)
unfolding apply_karma_adjustment find_user find_entry
apply_runs = refl

adjust_once_example :
    (apply_karma_adjustment false (seller_request 5 2) (run messages sold)).1 ≡ run messages sold
adjust_once_example =
    adjust_once true false (seller_request 5 2) (seller_request 5 2) 2 5 campus sold first_entry
      messages refl refl apply_runs refl refl refl
