-- ===== src/Auth/Register/Laws.antt =====
-- What a registration checks and stores.
use iuh_exchange_be.Base.{
  String, ◌≡◌, refl, ap, ◌∙◌, sym, [], ◌∷◌, ◌++◌, Option, some, none, Bool-cases, inl, inr, false,
  any, ◌+◌, ◌*◌, is_some,
}
use iuh_exchange_be.Base.Text.{str_eq, eq_iff, trim}
use iuh_exchange_be.Base.Result.{Result, ok, ok-injective}
use iuh_exchange_be.Auth.Model.{
  Account, Env, Store, Reply, registered, otp_mail, find_by_email, collides, create_account,
}
use iuh_exchange_be.Auth.Register.{
  Registration, normalize, get_student_id_from_email, new_account, insert_account, register_as,
  register,
}
use iuh_exchange_be.Auth.Register.Pattern.{student_address, IsStudent, match_student_id_iff}

register_as_done :
    (e : Env) (r : Registration) (address : String) (s : Store) (found : Option String)
    (reply : Reply)
    → (register_as e r address s found).0 ≡ ok reply
    → (found ≡ some (trim r.student_id))
      × (register_as e r address s found
          ≡ insert_account e
              (new_account e r address)
              s
              (create_account (new_account e r address) s.accounts))
unfolding register_as
register_as_done e r address s none reply h = cc
register_as_done e r address s (some id) reply h =
    elim (Bool-cases (str_eq (trim r.student_id) id)) [
      | inr other ↦ cc (rw other at h)
      | inl same ↦ elim (Bool-cases (is_some (find_by_email address s.accounts))) [
        | inl used ↦ cc (rw (same, used) at h)
        | inr free ↦ (ap some (sym ((eq_iff (trim r.student_id) id).0 same)), rw (same, free) refl)
      ]
    ]

insert_done :
    (e : Env) (a : Account) (s : Store) (reply : Reply)
    → (insert_account e a s (create_account a s.accounts)).0 ≡ ok reply
    → (any (collides a) s.accounts ≡ false)
      × (reply ≡ registered a.email a.name)
      × (insert_account e a s (create_account a s.accounts) ≡ (
        ok (registered a.email a.name),
        record {
          accounts = s.accounts ++ (a ∷ []);
          mailed = s.mailed ++ (otp_mail a.email e.random_otp ∷ []);
        },
      ))
unfolding insert_account create_account
insert_done e a s reply h = elim (Bool-cases (any (collides a) s.accounts)) [
  | inl taken ↦ cc (rw taken at h)
  | inr free ↦ (free, sym (ok-injective _ _ (rw free at h)), rw free refl)
]

-- A registration that succeeds names a student: normalized once more, its address consists of the
-- number that the request gives, a dot, a name and the university's domain. No account has the new
-- one's id, address or number; the new one is appended to the table, not verified and with a code of
-- ten minutes, and the code is mailed to the address, which is all that changes.
pub register_checked :
    (e : Env) (r : Registration) (s : Store) (reply : Reply)
    → (register e r s).0 ≡ ok reply
    → (name : String) × (a : Account) × (normalize e (normalize e r.email)
        ≡ student_address (trim r.student_id) name)
      × IsStudent (trim r.student_id) name
      × (any (collides a) s.accounts ≡ false)
      × ((register e r s).1 ≡ record {
        accounts = s.accounts ++ (a ∷ []);
        mailed = s.mailed ++ (otp_mail (normalize e r.email) e.random_otp ∷ []);
      })
      × (a.email ≡ normalize e r.email)
      × (a.student_id ≡ trim r.student_id)
      × (a.is_verified ≡ false)
      × (a.otp.text ≡ some e.random_otp)
      × (a.otp.expiry ≡ some (e.now + 10 * 60 * 1000))
unfolding register get_student_id_from_email new_account
register_checked e r s reply h =
    let address = normalize e r.email in
    let a = new_account e r address in
    let (matched, inserts) =
      register_as_done e r address s (get_student_id_from_email e address) reply h in
    let (free, replied, stored) =
      insert_done e a s reply (ap (λ (o : Result Reply × Store). o.0) (sym inserts) ∙ h) in
    let (name, built, parts) =
      (match_student_id_iff (normalize e address) (trim r.student_id)).0 matched in
    (
      name,
      a,
      built,
      parts,
      free,
      ap (λ (o : Result Reply × Store). o.1) (inserts ∙ stored),
      refl,
      refl,
      refl,
      refl,
      refl,
    )
