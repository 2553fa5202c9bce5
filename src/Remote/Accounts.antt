-- ===== src/Remote/Accounts.antt =====
-- remote/auth.rs: the data, the validations and the passwords. A `BTreeSet` of texts is a map into
-- the type with one value.
use webadbcontrol.Base.{
  ℕ, String, ◌<>◌, Bool, true, false, not, ◌&&◌, ◌||◌, Option, none, some, List, all, leb, ◌==ℕ◌,
  if◌then◌else◌, ◌⊎◌, inl, inr,
}
use webadbcontrol.Base.Text.{codes, text_len, is_ascii_alphanumeric}
use webadbcontrol.Base.Map.{Map, lookup, keys}
use webadbcontrol.Error.{AppError, new, with_cause, Result, ok, err, ◌>>=◌}

abbrev pub default_admin_username : String
default_admin_username = "admin"

abbrev pub default_admin_password : String
default_admin_password = "admin"

abbrev pub database_version : ℕ
database_version = 1

pub data RemoteRole : Type 0 where
  admin user : RemoteRole

abbrev pub is_admin_role : RemoteRole → Bool
is_admin_role admin = true
is_admin_role user = false

abbrev pub DeviceSet : Type 0
DeviceSet = Map (Unit {0})

pub record RemoteAccount : Type 0 where
  pub username : String
  pub role : RemoteRole
  pub devices : List String
  pub built_in : Bool
  pub password_change_required : Bool

pub record AuthenticatedSession : Type 0 where
  pub token : String
  pub username : String
  pub role : RemoteRole
  pub devices : DeviceSet
  pub password_change_required : Bool

pub record StoredAccount : Type 0 where
  pub username : String
  pub password_hash : String
  pub role : RemoteRole
  pub devices : DeviceSet
  pub built_in : Bool
  pub password_change_required : Bool

pub record AccountDatabase : Type 0 where
  pub version : ℕ
  pub users : Map StoredAccount

-- Argon2's answer to `PasswordHash::new` and then `verify_password`.
pub data Verdict : Type 0 where
  malformed : String → Verdict
  mismatch matches : Verdict

-- The crates that are called: argon2, and serde_json on the database. A failure carries its text.
pub record Crates : Type 0 where
  pub encode_salt : ℕ → String ⊎ String
  pub hash : String → String → String ⊎ String
  pub verify : String → String → Verdict
  pub from_slice : String → String ⊎ AccountDatabase
  pub to_vec_pretty : AccountDatabase → String ⊎ String

unfoldable pub invalid_credentials : AppError
unfolding new
invalid_credentials =
    new "REMOTE_AUTH_CREDENTIALS_INVALID" "Username or password is incorrect." "remote.auth" false

unfoldable pub user_not_found : String → AppError
unfolding new
user_not_found username =
    new "REMOTE_AUTH_USER_NOT_FOUND" ("Remote account " <> username <> " does not exist.")
      "remote.auth" false

unfoldable pub session_invalid : String → AppError
unfolding new
session_invalid message = new "REMOTE_AUTH_SESSION_INVALID" message "remote.auth" true

unfoldable pub auth_error : String → String → AppError
unfolding new
auth_error error_code message = new error_code message "remote.auth" false

unfoldable pub storage_error : String → String → AppError
unfolding new with_cause
storage_error error_code cause =
    with_cause (new error_code "Failed to access the remote account database." "remote.auth" true)
      cause

abbrev is_username_char : ℕ → Bool
is_username_char c = is_ascii_alphanumeric c || c ==ℕ b'.' || c ==ℕ b'_' || c ==ℕ b'-'

-- A character outside ASCII has only bytes that are not accepted, so the characters are tested.
unfoldable pub validate_username : String → Result (Unit {0})
validate_username username =
    if leb 3 (text_len (codes username))
      && leb (text_len (codes username)) 64
      && all is_username_char (codes username)
    then ok tt
    else err (
        auth_error "REMOTE_AUTH_USERNAME_INVALID"
          "Username must be 3-64 ASCII letters, digits, dots, underscores, or hyphens.")

unfoldable pub validate_new_password : String → Result (Unit {0})
validate_new_password password =
    if leb 8 (text_len (codes password)) && leb (text_len (codes password)) 1024
    then ok tt
    else err (auth_error "REMOTE_AUTH_PASSWORD_INVALID" "New passwords must contain 8-1024 bytes.")

abbrev pub is_builtin_admin : Option StoredAccount → Bool
is_builtin_admin none = false
is_builtin_admin (some a) = is_admin_role a.role && a.built_in

unfoldable pub validate_database : AccountDatabase → Result (Unit {0})
validate_database database =
    if not (database.version ==ℕ database_version)
      || not (is_builtin_admin (lookup default_admin_username database.users))
    then err (
        auth_error "REMOTE_AUTH_DATABASE_INVALID"
          "Remote account database is unsupported or missing the built-in administrator.")
    else ok tt

or_cause : String ⊎ String → (String → AppError) → Result String
or_cause (inl cause) e = err (e cause)
or_cause (inr text) e = ok text

unfoldable pub hash_failed : String → String → AppError
unfolding with_cause
hash_failed message cause = with_cause (auth_error "REMOTE_AUTH_PASSWORD_HASH_FAILED" message) cause

-- `salt_bits` is `rand::random::<[u8; 16]>()`.
unfoldable pub hash_password : Crates → String → ℕ → Result String
unfolding or_cause
hash_password crates password salt_bits = do
  salt ← or_cause (crates.encode_salt salt_bits) (hash_failed "Failed to generate a password salt.")
  or_cause (crates.hash password salt) (hash_failed "Failed to hash the remote account password.")

unfoldable pub verify_password : Crates → String → String → Result (Unit {0})
unfolding with_cause
verify_password crates password encoded_hash = elim (crates.verify password encoded_hash) [
  | malformed cause ↦ err (
      with_cause
        (auth_error "REMOTE_AUTH_DATABASE_INVALID" "Stored remote password hash is invalid.") cause)
  | mismatch ↦ err invalid_credentials
  | matches ↦ ok tt
]

unfoldable pub public_account : StoredAccount → RemoteAccount
public_account a = record {
  username = a.username;
  role = a.role;
  devices = keys a.devices;
  built_in = a.built_in;
  password_change_required = a.password_change_required;
}

unfoldable pub session_from_user : String → StoredAccount → AuthenticatedSession
session_from_user token a = record {
  token = token;
  username = a.username;
  role = a.role;
  devices = a.devices;
  password_change_required = a.password_change_required;
}
