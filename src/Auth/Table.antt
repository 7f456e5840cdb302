-- ===== src/Auth/Table.antt =====
-- The table of accounts: what is found after a save.
use iuh_exchange_be.Base.{
  String, ◌≡◌, refl, ap, ◌∙◌, List, [], ◌∷◌, some, arith, Bool-cases, inl, inr, ◌==◌, true,
}
use iuh_exchange_be.Base.Text.{str_eq}
use iuh_exchange_be.Orders.Model.{ObjectId}
use iuh_exchange_be.Base.Result.{Failure}
use iuh_exchange_be.Auth.Model.{
  Account, Store, Outcome, find_by_email, find_account, save_account, on_account, finish,
}

-- The two accounts are one row, under one address.
abbrev pub SameKeys : Account → Account → Type 0
SameKeys a b = (a.id ≡ b.id) × (a.email ≡ b.email)

pub find_by_email-email :
    (email : String) (xs : List Account) (a : Account)
    → find_by_email email xs ≡ some a
    → str_eq a.email email ≡ true
unfolding find_by_email
find_by_email-email email [] a h = cc
find_by_email-email email (x ∷ xs) a h = ground (arith, find_by_email-email email xs a)

pub find_by_email-save_account :
    (email : String) (a b : Account) (xs : List Account)
    → find_by_email email xs ≡ some a
    → SameKeys b a
    → find_by_email email (save_account b xs) ≡ some b
unfolding find_by_email save_account
find_by_email-save_account email a b [] h keys = cc
find_by_email-save_account email a b (x ∷ xs) h keys =
    let here = find_by_email-email email (x ∷ xs) a h in
    elim (Bool-cases (x.id == b.id)) [
      | inl same ↦ rw (same, ap (λ t. str_eq t email) keys.1 ∙ here) refl
      | inr other ↦ elim (Bool-cases (str_eq x.email email)) [
        | inl hit ↦ ground arith
        | inr miss ↦ rw (other, miss) (find_by_email-save_account email a b xs (ground arith) keys)
      ]
    ]

pub find_account-id :
    (id : ObjectId) (xs : List Account) (a : Account) → find_account id xs ≡ some a → a.id ≡ id
unfolding find_account
find_account-id id [] a h = cc
find_account-id id (x ∷ xs) a h = ground (arith, find_account-id id xs a)

pub find_account-save_account :
    (id : ObjectId) (a b : Account) (xs : List Account)
    → find_account id xs ≡ some a
    → b.id ≡ id
    → find_account id (save_account b xs) ≡ some b
unfolding find_account save_account
find_account-save_account id a b [] h same = cc
find_account-save_account id a b (x ∷ xs) h same =
    ground (arith, find_account-save_account id a b xs)

-- A handler answers for the account that it finds, and leaves the account that it saves.
pub on_account_found :
    (email : String) (s : Store) (a : Account) (missing : Failure) (f : Account → Outcome)
    → find_by_email email s.accounts ≡ some a
    → SameKeys (f a).account a
    → ((on_account (find_by_email email s.accounts) missing f s).0 ≡ (f a).answer)
      × (find_by_email email (on_account (find_by_email email s.accounts) missing f s).1.accounts
          ≡ some (f a).account)
unfolding on_account finish
on_account_found email s a missing f found keys = (
  rw found refl,
  rw found (find_by_email-save_account email a (f a).account s.accounts found keys),
)
