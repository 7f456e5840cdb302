-- ===== src/Auth/Register.antt =====
-- `getStudentIdFromEmail`, `checkEmail` and `register` of
-- packages/user-service/src/controllers/auth.controller.js.
pub mod Pattern
pub mod Laws
use Prim.Native.Char.{code}
use iuh_exchange_be.Base.{
  ℕ, suc, String, Bool, true, false, not, ◌&&◌, Option, none, some, List, [], ◌∷◌, ◌++◌, ◌*◌, ◌+◌,
  ◌==◌, leb, if◌then◌else◌, is_some,
}
use iuh_exchange_be.Base.Text.{str_eq, truthy, trim}
use iuh_exchange_be.Base.Result.{Result, ok, err, bad_request, ◌>>◌}
use iuh_exchange_be.Auth.Model.{
  Account, Env, Store, Reply, available, registered, otp_mail, student, no_otp, find_by_email,
  create_account,
}

-- `\d`
unfoldable pub is_digit : ℕ → Bool
is_digit c = leb 48 c && leb c 57

-- The longest run of characters with a property, and what follows it.
unfoldable pub span : (ℕ → Bool) → String → String × String
span p String.[] = (String.[], String.[])
span p (String.◌∷◌ c s) =
    let rest = span p s in
    if p (code c) then (String.◌∷◌ c rest.0, rest.1) else (String.[], String.◌∷◌ c s)

unfoldable pub text_length : String → ℕ
text_length String.[] = 0
text_length (String.◌∷◌ _ s) = suc (text_length s)

-- What the pattern asks of the text behind the first `.`: `[^@]+@student\.iuh\.edu\.vn$`
unfoldable pub is_student_mailbox : String → Bool
unfolding span
is_student_mailbox s =
    let parts = span (λ c. not (c == 64)) s in
    truthy parts.0 && str_eq parts.1 "@student.iuh.edu.vn"

-- `\.` and the rest of the pattern.
unfoldable pub follows_id : String → Bool
unfolding is_student_mailbox
follows_id String.[] = false
follows_id (String.◌∷◌ c s) = (code c == 46) && is_student_mailbox s

-- `^(\d{6,12})\.[^@]+@student\.iuh\.edu\.vn$`: no digit can follow the group, so that the group is
-- the whole run of digits.
unfoldable pub match_student_id : String → Option String
unfolding span is_digit text_length follows_id
match_student_id s =
    let parts = span is_digit s in
    if leb 6 (text_length parts.0) && leb (text_length parts.0) 12 && follows_id parts.1
    then some parts.0
    else none

unfoldable pub normalize : Env → String → String
normalize e s = e.to_lower_case (trim s)

-- `getStudentIdFromEmail`
unfoldable pub get_student_id_from_email : Env → String → Option String
unfolding match_student_id normalize
get_student_id_from_email e s = match_student_id (normalize e s)

-- `if (existing) throw …`
unfoldable pub throw_if_found : Option Account → Result (Unit {0})
throw_if_found none = ok tt
throw_if_found (some a) = err bad_request

unfoldable pub offer_email : Store → String → Option String → Result Reply
unfolding throw_if_found find_by_email
offer_email s email none = err bad_request
offer_email s email (some id) =
    throw_if_found (find_by_email email s.accounts) >> ok (available email id)

unfoldable pub check_email : Env → String → Store → Result Reply
unfolding offer_email normalize get_student_id_from_email
check_email e email s =
    let address = normalize e email in offer_email s address (get_student_id_from_email e address)

pub record Registration : Type 0 where
  pub email : String
  pub password : String
  pub name : String
  pub student_id : String

unfoldable pub new_account : Env → Registration → String → Account
unfolding no_otp
new_account e r address = record {
  id = e.new_id;
  email = address;
  password_hash = e.hash_password r.password;
  name = r.name;
  student_id = trim r.student_id;
  role = student;
  permissions = "CAN_POST" ∷ "CAN_CHAT" ∷ "CAN_REPORT" ∷ [];
  is_verified = false;
  is_active = true;
  otp = record { text = some e.random_otp; expiry = some (e.now + 10 * 60 * 1000) };
  otp_attempt_count = 0;
  refresh_token = none;
  password_reset_otp = no_otp;
  admin_two_factor_enabled = true;
  admin_login_otp = no_otp;
  failed_login_attempts = 0;
  lock_until = none;
}

unfoldable pub insert_account : Env → Account → Store → Result (List Account) → Result Reply × Store
insert_account e a s (err thrown) = (err thrown, s)
insert_account e a s (ok accounts) = (
  ok (registered a.email a.name),
  record { accounts = accounts; mailed = s.mailed ++ (otp_mail a.email e.random_otp ∷ []) },
)

unfoldable pub register_as :
    Env → Registration → String → Store → Option String → Result Reply × Store
unfolding find_by_email create_account new_account insert_account
register_as e r address s none = (err bad_request, s)
register_as e r address s (some id) =
    if not (str_eq (trim r.student_id) id)
    then (err bad_request, s)
    else if is_some (find_by_email address s.accounts)
    then (err bad_request, s)
    else insert_account e (new_account e r address) s
        (create_account (new_account e r address) s.accounts)

unfoldable pub register : Env → Registration → Store → Result Reply × Store
unfolding register_as normalize get_student_id_from_email
register e r s =
    let address = normalize e r.email in
    register_as e r address s (get_student_id_from_email e address)
