-- ===== src/Remote/Service.antt =====
-- remote/service.rs: `RemoteControlService::handle_request` and the handlers it calls on the account
-- manager. An answer is the value its JSON is made from; where the request goes on to the
-- diagnostics or to Core, the answer says so.
pub mod Served
pub mod Admission
pub mod Forwarding
use webadbcontrol.Base.{
  ℕ, String, ◌==◌, Bool, true, false, not, ◌&&◌, Option, none, some, List, [], ◌∷◌, if◌then◌else◌,
  ◌⊎◌, inl, inr,
}
use webadbcontrol.Base.Text.{contains}
use webadbcontrol.Error.{AppError, new, with_cause, Result, ok, err, ◌>>=◌, ◌>>◌}
use webadbcontrol.Remote.Accounts.{
  AuthenticatedSession, RemoteAccount, Crates, default_admin_username, auth_error,
}
use webadbcontrol.Remote.Storage.{Manager, WriteDisk}
use webadbcontrol.Remote.Auth.{
  login, authenticate, logout, create_user, delete_user, change_own_password, reset_password,
  set_device_access, list_accounts,
}
use webadbcontrol.Remote.Authorize.{RemoteRequest, require_admin}

-- serde_json's decoders of the handlers' `Params`.
pub record RemoteParams : Type 1 where
  pub Value : Type 0
  pub login_params : Value → String ⊎ (String × String)
  pub password_params : Value → String ⊎ (String × String)
  pub create_params : Value → String ⊎ (String × String)
  pub delete_params : Value → String ⊎ String
  pub reset_params : Value → String ⊎ (String × String)
  pub assign_params : Value → String ⊎ (String × String × Bool)

-- What one request draws and reads: the clock, a token, a salt, the disk's answers, and which
-- devices Core lists.
pub record Inputs : Type 0 where
  pub now : ℕ
  pub fresh_token : String
  pub salt_bits : ℕ
  pub disk : WriteDisk
  pub core_has_device : String → Bool

pub data Answer (Value : Type 0) : Type 0 where
  logged_in me : AuthenticatedSession → Answer Value
  logged_out password_changed deleted password_reset : Answer Value
  accounts : List RemoteAccount → Answer Value
  account : RemoteAccount → Answer Value
  diagnostics forwarded : AuthenticatedSession → RemoteRequest Value → Answer Value

unfoldable pub auth_required : AppError
unfolding new
auth_required =
    new "REMOTE_AUTH_REQUIRED" "A valid remote session token is required." "remote.auth" true

unfoldable pub password_change_required_error : AppError
password_change_required_error =
    auth_error "REMOTE_AUTH_PASSWORD_CHANGE_REQUIRED"
      "The account password must be changed before remote control is allowed."

unfoldable pub admin_local_only : AppError
admin_local_only =
    auth_error "REMOTE_AUTH_ADMIN_LOCAL_ONLY"
      "The built-in administrator can only sign in through the local management frontend."

unfoldable pub device_not_connected : AppError
unfolding new
device_not_connected =
    new "REMOTE_AUTH_DEVICE_NOT_CONNECTED"
      "Only a device currently known to the core can be assigned." "remote.auth" true

unfoldable pub params_invalid : String → AppError
unfolding new with_cause
params_invalid cause =
    with_cause
      (new "REMOTE_PROTOCOL_PARAMS_INVALID" "Remote request parameters are invalid."
        "remote.protocol" false)
      cause

abbrev pub always_allowed : List String
always_allowed = "auth.me" ∷ "auth.changePassword" ∷ "auth.logout" ∷ []

module _ (crates : Crates) (P : RemoteParams) where
  abbrev pub Outcome : Type 0
  Outcome = Result (Answer P.Value) × Manager

  -- The method's answer, made into the response's.
  abbrev pub answered : {A : Type 0} → (A → Answer P.Value) → Result A × Manager → Outcome
  answered f (ok a, m) = (ok (f a), m)
  answered f (err e, m) = (err e, m)

  -- `parse_params`, and then the handler.
  abbrev pub with_params {ℓ} : {A : Type ℓ} → String ⊎ A → Manager → (A → Outcome) → Outcome
  with_params (inl cause) m f = (err (params_invalid cause), m)
  with_params (inr params) m f = f params

  abbrev pub as_admin : AuthenticatedSession → Manager → Outcome → Outcome
  as_admin session m handled = elim (require_admin session) [ err e ↦ (err e, m) | ok _ ↦ handled ]

  unfoldable pub remote_login : Inputs → RemoteRequest P.Value → Manager → Outcome
  remote_login inputs request m =
      with_params (P.login_params request.params) m (λ (username, password).
        if username == default_admin_username
        then (err admin_local_only, m)
        else answered logged_in (login crates username password inputs.fresh_token inputs.now m))

  unfoldable pub change_password :
      Inputs → RemoteRequest P.Value → AuthenticatedSession → Manager → Outcome
  change_password inputs request session m =
      with_params (P.password_params request.params) m (λ (current, replacement).
        answered (λ _. password_changed)
          (change_own_password crates session.username current replacement inputs.salt_bits
            inputs.disk m))

  -- The handlers of the administrator's methods, from where `require_admin` has let them go on:
  -- `by_method` puts it in front of each.
  unfoldable pub admin_create_user : Inputs → RemoteRequest P.Value → Manager → Outcome
  admin_create_user inputs request m =
      with_params (P.create_params request.params) m (λ (username, password).
        answered account (create_user crates username password inputs.salt_bits inputs.disk m))

  unfoldable pub admin_delete_user : Inputs → RemoteRequest P.Value → Manager → Outcome
  admin_delete_user inputs request m =
      with_params (P.delete_params request.params) m
        (λ username. answered (λ _. deleted) (delete_user crates username inputs.disk m))

  unfoldable pub admin_reset_password : Inputs → RemoteRequest P.Value → Manager → Outcome
  admin_reset_password inputs request m =
      with_params (P.reset_params request.params) m (λ (username, replacement).
        answered (λ _. password_reset)
          (reset_password crates username replacement inputs.salt_bits inputs.disk m))

  unfoldable pub admin_assign_device : Inputs → RemoteRequest P.Value → Manager → Outcome
  admin_assign_device inputs request m =
      with_params (P.assign_params request.params) m (λ (username, device_id, assigned).
        if assigned && not (inputs.core_has_device device_id)
        then (err device_not_connected, m)
        else answered account (set_device_access crates username device_id assigned inputs.disk m))

  -- The `match` on the method, for a session that may go on.
  unfoldable pub by_method :
      Inputs → RemoteRequest P.Value → String → AuthenticatedSession → Manager → Outcome
  unfolding remote_login
  by_method inputs request token session m =
      if request.method == "auth.me"
      then (ok (me session), m)
      else if request.method == "auth.logout"
      then (ok logged_out, logout token m)
      else if request.method == "auth.changePassword"
      then change_password inputs request session m
      else if request.method == "diagnostics.report"
      then (ok (diagnostics session request), m)
      else if request.method == "admin.users.list"
      then as_admin session m (ok (accounts (list_accounts m)), m)
      else if request.method == "admin.users.create"
      then as_admin session m (admin_create_user inputs request m)
      else if request.method == "admin.users.delete"
      then as_admin session m (admin_delete_user inputs request m)
      else if request.method == "admin.users.resetPassword"
      then as_admin session m (admin_reset_password inputs request m)
      else if request.method == "admin.devices.assign"
      then as_admin session m (admin_assign_device inputs request m)
      else (ok (forwarded session request), m)

  abbrev pub given_token : Option String → Option String
  given_token none = none
  given_token (some token) = if token == "" then none else some token

  unfoldable pub with_token : Inputs → RemoteRequest P.Value → Option String → Manager → Outcome
  with_token inputs request none m = (err auth_required, m)
  with_token inputs request (some token) m =
      let (found, alive) = authenticate token inputs.now m in
      elim found [
        | err e ↦ (err e, alive)
        | ok session ↦
            if session.password_change_required && not (contains request.method always_allowed)
            then (err password_change_required_error, alive)
            else by_method inputs request token session alive
      ]

  unfoldable pub handle_request : Inputs → RemoteRequest P.Value → Manager → Outcome
  handle_request inputs request m =
      if request.method == "auth.login"
      then remote_login inputs request m
      else with_token inputs request (given_token request.session_token) m
