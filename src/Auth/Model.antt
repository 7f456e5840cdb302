-- ===== src/Auth/Model.antt =====
-- An account, with the fields of packages/user-service/src/models/User.js that the handlers of
-- controllers/auth.controller.js use; the functions of packages/common/src/utils/helpers.js on
-- passwords and tokens; and the table of accounts.
use iuh_exchange_be.Base.{
  ℕ, String, Bool, true, false, Option, none, some, List, [], ◌∷◌, ◌++◌, ◌==◌, ◌&&◌, ◌||◌, ltb,
  if◌then◌else◌, any,
}
use iuh_exchange_be.Base.Text.{str_eq, truthy}
use iuh_exchange_be.Base.Result.{Result, ok, err, Failure, duplicate_key, type_error}
use iuh_exchange_be.Orders.Model.{ObjectId}

pub data Role : Type 0 where
  student moderator admin : Role

unfoldable pub is_admin : Role → Bool
is_admin admin = true
is_admin _ = false

-- A code that was sent by mail (or its hash), with the end of its validity.
pub record Otp : Type 0 where
  pub text : Option String
  pub expiry : Option ℕ

unfoldable pub no_otp : Otp
no_otp = record { text = none; expiry = none }

-- `permissions` is only passed on.
pub record Account : Type 0 where
  pub id : ObjectId
  pub email : String
  pub password_hash : String
  pub name : String
  pub student_id : String
  pub role : Role
  pub permissions : List String
  pub is_verified : Bool
  pub is_active : Bool
  pub otp : Otp
  pub otp_attempt_count : ℕ
  pub refresh_token : Option String
  pub password_reset_otp : Otp
  pub admin_two_factor_enabled : Bool
  pub admin_login_otp : Otp
  pub failed_login_attempts : ℕ
  pub lock_until : Option ℕ

-- The claims of an access token.
pub record Payload : Type 0 where
  pub sub : ObjectId
  pub email : String
  pub role : Role
  pub permissions : List String

-- What a request meets: the clock, the random texts that it draws, and the functions of bcrypt,
-- SHA-256, JWT and the runtime.
pub record Env : Type 0 where
  pub now : ℕ
  pub random_otp : String
  pub new_id : ObjectId
  pub hash_password : String → String
  pub compare_password : String → String → Bool
  pub hash_token : String → String
  pub generate_access_token : Payload → String
  pub generate_refresh_token : ObjectId → String
  pub verify_token : String → Option ObjectId
  pub to_lower_case : String → String

-- Both sides are hexadecimal digests; a missing hash has no `length`.
unfoldable pub compare_token : Env → String → Option String → Result Bool
compare_token e token none = err type_error
compare_token e token (some hash) = ok (str_eq (e.hash_token token) hash)

unfoldable pub payload_of : Account → Payload
payload_of a = record { sub = a.id; email = a.email; role = a.role; permissions = a.permissions }

pub data Mail : Type 0 where
  otp_mail reset_mail admin_mail : String → String → Mail

pub data Reply : Type 0 where
  available registered : String → String → Reply
  done : Reply
  two_factor : String → Reply
  session : String → String → Reply

-- The table, and the mails that were given to the mailer, whose failure is only logged.
pub record Store : Type 0 where
  pub accounts : List Account
  pub mailed : List Mail

-- `User.findOne({ email })`
unfoldable pub find_by_email : String → List Account → Option Account
find_by_email email [] = none
find_by_email email (a ∷ rest) =
    let found = find_by_email email rest in if str_eq a.email email then some a else found

-- `User.findById(id)`
unfoldable pub find_account : ObjectId → List Account → Option Account
find_account id [] = none
find_account id (a ∷ rest) =
    let found = find_account id rest in if a.id == id then some a else found

-- `user.save()` on a user that was read from the table: an upsert on the primary key.
unfoldable pub save_account : Account → List Account → List Account
save_account a [] = []
save_account a (x ∷ rest) =
    let saved = save_account a rest in (if x.id == a.id then a else x) ∷ saved

-- The primary key and the unique indexes of the table.
unfoldable pub collides : Account → Account → Bool
collides a x =
    x.id == a.id
    || str_eq x.email a.email
    || (truthy a.student_id && str_eq x.student_id a.student_id)

-- `User.create(…)`: the insertion fails where an index has the key already.
unfoldable pub create_account : Account → List Account → Result (List Account)
unfolding collides
create_account a accounts =
    if any (collides a) accounts then err duplicate_key else ok (accounts ++ (a ∷ []))

-- What a handler does with one account: its answer, the account as it is saved (or as it was read,
-- where nothing is saved), and the mails.
pub record Outcome : Type 0 where
  pub answer : Result Reply
  pub account : Account
  pub mails : List Mail

unfoldable pub refuse : Account → Failure → Outcome
refuse a thrown = record { answer = err thrown; account = a; mails = [] }

unfoldable pub finish : Store → Outcome → Result Reply × Store
unfolding save_account
finish s o = (
  o.answer,
  record { accounts = save_account o.account s.accounts; mailed = s.mailed ++ o.mails },
)

-- A handler that reads its account first.
unfoldable pub on_account :
    Option Account → Failure → (Account → Outcome) → Store → Result Reply × Store
unfolding finish
on_account none missing f s = (err missing, s)
on_account (some a) missing f s = finish s (f a)

-- Whether a time has passed: `expiry < new Date()`.
unfoldable pub is_past : Env → ℕ → Bool
is_past e t = ltb t e.now
