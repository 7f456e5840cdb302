-- ===== src/Auth/Tests/Samples.antt =====
-- Concrete accounts and requests.
use iuh_exchange_be.Base.{ℕ, String, ◌≡◌, refl, true, false, none, some, [], ◌∷◌}
use iuh_exchange_be.Base.Text.{str_eq, str_append}
use iuh_exchange_be.Auth.Model.{student, admin, is_admin, no_otp, Account, Env, Store}
use iuh_exchange_be.Auth.Register.{Registration}
use iuh_exchange_be.Auth.Login.{Credentials}

-- Hashes that only mark their text, and a token that names the user.
abbrev pub at_time : ℕ → String → Env
at_time now otp = record {
  now = now;
  random_otp = otp;
  new_id = 3;
  hash_password = λ p. str_append "#" p;
  compare_password = λ p h. str_eq (str_append "#" p) h;
  hash_token = λ t. str_append "~" t;
  generate_access_token = λ p. "access";
  generate_refresh_token = λ id. "refresh";
  verify_token = λ t. some 1;
  to_lower_case = λ s. s;
}

abbrev pub ann : Account
ann = record {
  id = 1;
  email = "ann";
  password_hash = "#secret";
  name = "Ann";
  student_id = "12345678";
  role = student;
  permissions = [];
  is_verified = true;
  is_active = true;
  otp = no_otp;
  otp_attempt_count = 0;
  refresh_token = some "~old";
  password_reset_otp = record { text = some "111111"; expiry = some 600000 };
  admin_two_factor_enabled = true;
  admin_login_otp = no_otp;
  failed_login_attempts = 4;
  lock_until = none;
}

pub ann_is_no_admin : is_admin ann.role ≡ false
unfolding is_admin
ann_is_no_admin = refl

abbrev pub newcomer : Account
newcomer = record ann {
  is_verified = false;
  otp = record { text = some "222222"; expiry = some 600000 };
}

abbrev pub boss : Account
boss = record ann {
  role = admin;
  admin_login_otp = record { text = some "~333333"; expiry = some 600000 };
}

abbrev pub store_of : Account → Store
store_of a = record { accounts = a ∷ []; mailed = [] }

abbrev pub with_password : String → Credentials
with_password p = record {
  email = "ann";
  password = p;
  admin_otp = some "333333";
  admin_portal = true;
}

abbrev pub form : Registration
form = record {
  email = " 87654321.an@student.iuh.edu.vn";
  password = "secret";
  name = "An";
  student_id = "87654321";
}
