-- ===== src/Remote/LocalAdmin.antt =====
-- remote/local_admin.rs: `LocalAdminService`, the administrator's side of the account manager. It
-- answers IPC requests of the process that runs Core, and no remote request.
pub mod Answers
pub mod Calls
pub mod Guard
use webadbcontrol.Base.{
  ℕ, String, ◌==◌, Bool, true, false, not, ◌&&◌, ◌||◌, Option, none, some, List, [], ◌∷◌, map,
  filter, if◌then◌else◌, ◌⊎◌, inl, inr,
}
use webadbcontrol.Base.Text.{contains}
use webadbcontrol.Base.Map.{keys}
use webadbcontrol.Error.{AppError, new, with_cause, Result, ok, err, ◌>>=◌}
use webadbcontrol.Ipc.{
  IpcRequest, success, failure, Reply, account, accounts, IpcJson, serialization_failed, Response,
}
use webadbcontrol.Remote.Accounts.{
  RemoteRole, admin, user, RemoteAccount, AuthenticatedSession, Crates, is_admin_role, auth_error,
  default_admin_username,
}
use webadbcontrol.Remote.Storage.{Manager, WriteDisk}
use webadbcontrol.Remote.Auth.{
  login, authenticate, logout, create_user, delete_user, change_own_password, reset_password,
  set_device_access, list_accounts,
}

-- What one request draws and reads: the clock (`later` where it is read again), a token, a salt, and
-- the disk's answers.
pub record Turn : Type 0 where
  pub now : ℕ
  pub later : ℕ
  pub fresh_token : String
  pub salt_bits : ℕ
  pub disk : WriteDisk

unfoldable pub change_required : AppError
unfolding auth_error
change_required =
    auth_error "REMOTE_AUTH_PASSWORD_CHANGE_REQUIRED"
      "The administrator password must be changed before management is allowed."

unfoldable pub method_not_found : AppError
unfolding new
method_not_found =
    new "IPC_METHOD_NOT_FOUND" "Unknown local remote-administration method." "ipc.protocol" false

unfoldable pub no_media_gateway : AppError
unfolding auth_error
no_media_gateway =
    auth_error "REMOTE_AUTH_ADMIN_LOCAL_ONLY"
      "The built-in administrator cannot use the remote media gateway."

unfoldable pub admin_only : AppError
unfolding auth_error
admin_only =
    auth_error "REMOTE_AUTH_FORBIDDEN"
      "Only the built-in administrator can use the local management interface."

unfoldable pub builtin_user_immutable : AppError
unfolding auth_error
builtin_user_immutable =
    auth_error "REMOTE_AUTH_BUILTIN_USER_IMMUTABLE"
      "The built-in administrator is managed only through the password settings flow."

unfoldable pub admin_params_invalid : String → AppError
unfolding new with_cause
admin_params_invalid cause =
    with_cause
      (new "REMOTE_PROTOCOL_PARAMS_INVALID" "Local remote-administration parameters are invalid."
        "remote.protocol" false)
      cause

unfoldable pub require_remote_user : String → Result (Unit {0})
require_remote_user username =
    if username == default_admin_username then err builtin_user_immutable else ok tt

abbrev pub parse_params {ℓ} : {A : Type ℓ} → String ⊎ A → Result A
parse_params (inl cause) = err (admin_params_invalid cause)
parse_params (inr params) = ok params

-- The role's serialized name.
abbrev role_name : RemoteRole → String
role_name admin = "admin"
role_name user = "user"

abbrev pub always_open : List String
always_open = "remote.admin.me" ∷ "remote.admin.logout" ∷ "remote.admin.changePassword" ∷ []

module _ (crates : Crates) (J : IpcJson) where
  abbrev pub Outcome : Type 0
  Outcome = Response J × Manager

  abbrev pub serialize_success : String → Reply J.Value → Response J
  serialize_success id reply = elim (J.to_value reply) [
    | inr value ↦ success id value
    | inl cause ↦ failure (some id) (
        serialization_failed "REMOTE_PROTOCOL_ENCODE_FAILED"
          "Failed to encode local remote-administration response." "remote.protocol" cause)
  ]

  -- An error at a step answers the request at once.
  abbrev pub checked {ℓ} : {A : Type ℓ} → String → Result A → Manager → (A → Outcome) → Outcome
  checked id (err e) m rest = (failure (some id) e, m)
  checked id (ok a) m rest = rest a

  -- The answer of one of the manager's methods, made into the response.
  abbrev pub answered {ℓ} : {A : Type ℓ} → String → (A → Response J) → Result A × Manager → Outcome
  answered id respond (err e, m) = (failure (some id) e, m)
  answered id respond (ok a, m) = (respond a, m)

  abbrev session_fields : AuthenticatedSession → List (String × J.Value)
  session_fields session =
      ("username", J.text session.username)
      ∷ ("role", J.text (role_name session.role))
      ∷ ("passwordChangeRequired", J.boolean session.password_change_required)
      ∷ []

  abbrev login_required : String → String → Response J
  login_required id done =
      success id (J.object ((done, J.boolean true) ∷ ("loginRequired", J.boolean true) ∷ []))

  abbrev inspected : String → AuthenticatedSession → Response J
  inspected id session =
      if is_admin_role session.role
      then failure (some id) no_media_gateway
      else success id (
          J.object (
            ("username", J.text session.username)
            ∷ ("role", J.text (role_name session.role))
            ∷ ("devices", J.array (map J.text (keys session.devices)))
            ∷ ("passwordChangeRequired", J.boolean session.password_change_required)
            ∷ []))

  unfoldable pub inspect_remote_session : Turn → IpcRequest J.Value → Manager → Outcome
  inspect_remote_session turn request m =
      checked request.id (parse_params (J.inspect_params request.params)) m
        (λ token. answered request.id (inspected request.id) (authenticate token turn.now m))

  unfoldable pub admin_login : Turn → IpcRequest J.Value → Manager → Outcome
  admin_login turn request m =
      checked request.id (parse_params (J.admin_login_params request.params)) m (λ password.
        answered request.id
          (λ session.
            success request.id
              (J.object (("sessionToken", J.text session.token) ∷ session_fields session)))
          (login crates default_admin_username password turn.fresh_token turn.now m))

  abbrev pub only_admin : AuthenticatedSession → Result AuthenticatedSession
  only_admin session =
      if not (is_admin_role session.role) || not (session.username == default_admin_username)
      then err admin_only
      else ok session

  unfoldable pub authenticate_admin : ℕ → J.Value → Manager → Result AuthenticatedSession × Manager
  authenticate_admin now params m = elim (parse_params (J.admin_session_params params)) [
    | err e ↦ (err e, m)
    | ok token ↦ let (found, alive) = authenticate token now m in (found >>= only_admin, alive)
  ]

  unfoldable pub admin_change_password : Turn → IpcRequest J.Value → String → Manager → Outcome
  admin_change_password turn request token m =
      checked request.id (parse_params (J.admin_password_params request.params)) m
        (λ (current, replacement).
          let (found, alive) = authenticate token turn.later m in
          checked request.id found alive (λ session.
            answered {A = Unit {0}} request.id (λ _. login_required request.id "passwordChanged")
              (change_own_password crates session.username current replacement turn.salt_bits
                turn.disk alive)))

  abbrev is_user : RemoteAccount → Bool
  is_user listed = not (is_admin_role listed.role)

  unfoldable pub list_users : String → Manager → Outcome
  list_users id m = (serialize_success id (accounts (filter is_user (list_accounts m))), m)

  unfoldable pub local_create_user : Turn → IpcRequest J.Value → Manager → Outcome
  local_create_user turn request m =
      checked request.id (parse_params (J.admin_create_params request.params)) m
        (λ (username, password).
          answered request.id (λ created. serialize_success request.id (account created))
            (create_user crates username password turn.salt_bits turn.disk m))

  unfoldable pub local_delete_user : Turn → IpcRequest J.Value → Manager → Outcome
  local_delete_user turn request m =
      checked request.id (parse_params (J.admin_delete_params request.params)) m (λ username.
        checked request.id (require_remote_user username) m (λ _.
          answered {A = Unit {0}} request.id
            (λ _. success request.id (J.object (("deleted", J.boolean true) ∷ [])))
            (delete_user crates username turn.disk m)))

  unfoldable pub local_reset_password : Turn → IpcRequest J.Value → Manager → Outcome
  local_reset_password turn request m =
      checked request.id (parse_params (J.admin_reset_params request.params)) m
        (λ (username, replacement). checked request.id (require_remote_user username) m (λ _.
          answered {A = Unit {0}} request.id (λ _. login_required request.id "passwordReset")
            (reset_password crates username replacement turn.salt_bits turn.disk m)))

  unfoldable pub local_assign_device : Turn → IpcRequest J.Value → Manager → Outcome
  local_assign_device turn request m =
      checked request.id (parse_params (J.admin_assign_params request.params)) m
        (λ (username, device_id, assigned).
          checked request.id (require_remote_user username) m (λ _.
            answered request.id (λ changed. serialize_success request.id (account changed))
              (set_device_access crates username device_id assigned turn.disk m)))

  -- The `match` on the method, for a session that may go on.
  unfoldable pub managed : Turn → IpcRequest J.Value → AuthenticatedSession → Manager → Outcome
  managed turn request session m =
      if request.method == "remote.admin.me"
      then (success request.id (J.object (session_fields session)), m)
      else if request.method == "remote.admin.logout"
      then (
        success request.id (J.object (("loggedOut", J.boolean true) ∷ [])),
        logout session.token m,
      )
      else if request.method == "remote.admin.changePassword"
      then admin_change_password turn request session.token m
      else if request.method == "remote.admin.users.list"
      then list_users request.id m
      else if request.method == "remote.admin.users.create"
      then local_create_user turn request m
      else if request.method == "remote.admin.users.delete"
      then local_delete_user turn request m
      else if request.method == "remote.admin.users.resetPassword"
      then local_reset_password turn request m
      else if request.method == "remote.admin.devices.assign"
      then local_assign_device turn request m
      else (failure (some request.id) method_not_found, m)

  unfoldable pub with_admin : Turn → IpcRequest J.Value → Manager → Outcome
  unfolding authenticate_admin
  with_admin turn request m =
      let (found, alive) = authenticate_admin turn.now request.params m in
      checked request.id found alive (λ session.
        if session.password_change_required && not (contains request.method always_open)
        then (failure (some request.id) change_required, alive)
        else managed turn request session alive)

  unfoldable pub local_handle_request : Turn → IpcRequest J.Value → Manager → Outcome
  local_handle_request turn request m =
      if request.method == "remote.internal.session.inspect"
      then inspect_remote_session turn request m
      else if request.method == "remote.admin.login"
      then admin_login turn request m
      else with_admin turn request m
