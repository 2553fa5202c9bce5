-- ===== src/Remote/Auth.antt =====
-- remote/auth.rs: the methods of `RemoteAccountManager`. A method returns its result and the new
-- state. `Instant::now()`, the drawn bytes and the disk's answers are arguments.
pub mod Log
pub mod Invariant
pub mod Access
pub mod Durable
pub mod Ordinary
pub mod Passwords
pub mod Sessions
pub mod Revocation
pub mod Preserved
pub mod Served
use webadbcontrol.Base.{
  ℕ, ◌+◌, String, ◌==◌, Bool, true, false, not, Option, none, some, List, [], ◌∷◌, map, ltb,
  if◌then◌else◌, is_some,
}
use webadbcontrol.Base.Text.{is_blank}
use webadbcontrol.Base.Map.{Map, lookup, insert, remove, retain, values}
use webadbcontrol.Error.{AppError, new, Result, ok, err, ◌>>=◌, ◌>>◌, fail_if, or_fail}
use webadbcontrol.Remote.Accounts.{
  user, RemoteAccount, AuthenticatedSession, StoredAccount, Crates, default_admin_username,
  invalid_credentials, user_not_found, session_invalid, auth_error, validate_username,
  validate_new_password, hash_password, verify_password, public_account, session_from_user,
}
use webadbcontrol.Remote.Storage.{Manager, SessionRecord, WriteDisk, with_users, persisted}

-- The sessions that are not `username`'s.
abbrev pub not_of : String → String → SessionRecord → Bool
not_of username _ session = not (session.username == username)

abbrev pub unexpired : ℕ → String → SessionRecord → Bool
unexpired now _ session = ltb now session.expires_at

abbrev pub with_sessions : Manager → Map SessionRecord → Manager
with_sessions m sessions = record m { sessions = sessions }

-- The account's new entry, and the end of all its sessions.
abbrev pub replace_account : String → StoredAccount → Manager → Manager
replace_account username a m = record m {
  database = record m.database { users = insert username a m.database.users };
  sessions = retain (not_of username) m.sessions;
}

abbrev drop_account : String → Manager → Manager
drop_account username m = record m {
  database = record m.database { users = remove username m.database.users };
  sessions = retain (not_of username) m.sessions;
}

unfoldable pub user_exists : AppError
user_exists =
    auth_error "REMOTE_AUTH_USER_EXISTS" "A remote account with this username already exists."

abbrev pub new_account : String → String → StoredAccount
new_account username password_hash = record {
  username = username;
  password_hash = password_hash;
  role = user;
  devices = [];
  built_in = false;
  password_change_required = false;
}

module _ (crates : Crates) where
  check_login : String → String → Manager → Result StoredAccount
  check_login username password m = do
    account ← or_fail (lookup username m.database.users) invalid_credentials
    verify_password crates password account.password_hash
    ok account

  -- `token` is the encoding of `rand::random::<[u8; 32]>()`.
  unfoldable pub login :
      String → String → String → ℕ → Manager → Result AuthenticatedSession × Manager
  unfolding check_login
  login username password token now m = elim (check_login username password m) [
    | err e ↦ (err e, m)
    | ok account ↦
        let session : SessionRecord = record {
          username = username;
          expires_at = now + m.session_ttl;
        } in
        (ok (session_from_user token account), with_sessions m (insert token session m.sessions))
  ]

  check_new : String → String → ℕ → Manager → Result StoredAccount
  check_new username password salt_bits m = do
    validate_username username
    validate_new_password password
    fail_if (is_some (lookup username m.database.users)) user_exists
    password_hash ← hash_password crates password salt_bits
    ok (new_account username password_hash)

  unfoldable pub create_user :
      String → String → ℕ → WriteDisk → Manager → Result RemoteAccount × Manager
  unfolding check_new
  create_user username password salt_bits w m = elim (check_new username password salt_bits m) [
    | err e ↦ (err e, m)
    | ok account ↦
        persisted crates w (with_users m (insert username account m.database.users))
          (public_account account)
  ]

  unfoldable pub delete_user : String → WriteDisk → Manager → Result (Unit {0}) × Manager
  delete_user username w m =
      if username == default_admin_username
      then (
        err (
            auth_error "REMOTE_AUTH_BUILTIN_USER_IMMUTABLE"
              "The built-in administrator account cannot be deleted or renamed."),
        m,
      )
      else if not (is_some (lookup username m.database.users))
      then (err (user_not_found username), m)
      else persisted crates w (drop_account username m) tt

  pub check_change : String → String → String → ℕ → Manager → Result StoredAccount
  check_change username current_password new_password salt_bits m = do
    validate_new_password new_password
    account ← or_fail (lookup username m.database.users) (user_not_found username)
    verify_password crates current_password account.password_hash
    password_hash ← hash_password crates new_password salt_bits
    ok (record account { password_hash = password_hash; password_change_required = false })

  unfoldable pub change_own_password :
      String → String → String → ℕ → WriteDisk → Manager → Result (Unit {0}) × Manager
  unfolding check_change
  change_own_password username current_password new_password salt_bits w m =
      elim (check_change username current_password new_password salt_bits m) [
        | err e ↦ (err e, m)
        | ok account ↦ persisted crates w (replace_account username account m) tt
      ]

  pub check_reset : String → String → ℕ → Manager → Result StoredAccount
  check_reset username new_password salt_bits m = do
    validate_new_password new_password
    account ← or_fail (lookup username m.database.users) (user_not_found username)
    password_hash ← hash_password crates new_password salt_bits
    ok (record account { password_hash = password_hash; password_change_required = true })

  unfoldable pub reset_password :
      String → String → ℕ → WriteDisk → Manager → Result (Unit {0}) × Manager
  unfolding check_reset
  reset_password username new_password salt_bits w m =
      elim (check_reset username new_password salt_bits m) [
        | err e ↦ (err e, m)
        | ok account ↦ persisted crates w (replace_account username account m) tt
      ]

  pub check_access : String → String → Bool → Manager → Result StoredAccount
  check_access username device_id assigned m = do
    fail_if (is_blank device_id)
        (auth_error "REMOTE_AUTH_DEVICE_ID_INVALID" "deviceId must not be empty.")
    account ← or_fail (lookup username m.database.users) (user_not_found username)
    ok (record account {
      devices =
          if assigned
          then insert device_id tt account.devices
          else remove device_id account.devices;
    })

  unfoldable pub set_device_access :
      String → String → Bool → WriteDisk → Manager → Result RemoteAccount × Manager
  unfolding check_access
  set_device_access username device_id assigned w m =
      elim (check_access username device_id assigned m) [
        | err e ↦ (err e, m)
        | ok account ↦
            persisted crates w (with_users m (insert username account m.database.users))
              (public_account account)
      ]

find_session : String → Manager → Result AuthenticatedSession
find_session token m = do
  session ←
      or_fail (lookup token m.sessions)
        (session_invalid "Remote session is missing, expired, or revoked.")
  account ←
      or_fail (lookup session.username m.database.users)
        (session_invalid "Remote session account no longer exists.")
  ok (session_from_user token account)

unfoldable pub authenticate : String → ℕ → Manager → Result AuthenticatedSession × Manager
unfolding find_session
authenticate token now m =
    let alive = with_sessions m (retain (unexpired now) m.sessions) in
    (find_session token alive, alive)

unfoldable pub logout : String → Manager → Manager
logout token m = with_sessions m (remove token m.sessions)

unfoldable pub list_accounts : Manager → List RemoteAccount
list_accounts m = map public_account (values m.database.users)
