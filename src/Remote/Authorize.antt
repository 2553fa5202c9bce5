-- ===== src/Remote/Authorize.antt =====
-- remote/service.rs: which requests of an ordinary user are passed on to Core. `Value` is
-- `serde_json::Value`, whose accessors are parameters.
pub mod Grants
use webadbcontrol.Base.{
  ℕ, String, ◌==◌, Bool, true, false, not, ◌&&◌, ◌||◌, Option, none, some, List, [], ◌∷◌,
  if◌then◌else◌,
}
use webadbcontrol.Base.Text.{contains}
use webadbcontrol.Error.{AppError, new, Result, ok, err}
use webadbcontrol.Remote.Accounts.{AuthenticatedSession, is_admin_role}
use webadbcontrol.Remote.Identity.{session_can_access_device}

pub record JsonValue : Type 1 where
  pub Value : Type 0
  pub get : Value → String → Option Value
  pub as_str : Value → Option String
  pub as_array : Value → Option (List Value)

pub record RemoteRequest (Value : Type 0) : Type 0 where
  pub id : String
  pub session_token : Option String
  pub method : String
  pub params : Value

unfoldable pub permission_denied : AppError
unfolding new
permission_denied =
    new "REMOTE_AUTH_FORBIDDEN" "The remote account is not authorized for this operation or device."
      "remote.auth" false

unfoldable pub require_admin : AuthenticatedSession → Result (Unit {0})
require_admin session = if is_admin_role session.role then ok tt else err permission_denied

abbrev pub open_methods : List String
open_methods =
    "core.getHostTarget" ∷ "adb.asset.current" ∷ "companion.protocol.info" ∷ "capability.list"
    ∷ "device.list" ∷ []

abbrev pub device_methods : List String
device_methods = "device.getCapabilities" ∷ "device.getPermissionState" ∷ "device.invoke" ∷ []

abbrev pub device_scoped_commands : List String
device_scoped_commands =
    "shell" ∷ "exec-out" ∷ "push" ∷ "pull" ∷ "install" ∷ "install-multiple"
    ∷ "install-multi-package" ∷ "uninstall" ∷ "forward" ∷ "reverse" ∷ "reboot" ∷ "root" ∷ "unroot"
    ∷ "remount" ∷ "disable-verity" ∷ "enable-verity" ∷ "bugreport" ∷ "logcat" ∷ "jdwp" ∷ "get-state"
    ∷ "get-serialno" ∷ "get-devpath" ∷ "features" ∷ []

abbrev pub is_device_scoped_adb_command : String → Bool
is_device_scoped_adb_command command = contains command device_scoped_commands

abbrev pub granted : Bool → Result (Unit {0})
granted true = ok tt
granted false = err permission_denied

module _ (J : JsonValue) where
  abbrev pub string_of : Option J.Value → Option String
  string_of none = none
  string_of (some value) = J.as_str value

  abbrev pub authorize_device_id : Option String → AuthenticatedSession → Result (Unit {0})
  authorize_device_id none session = err permission_denied
  authorize_device_id (some device_id) session =
      granted (not (device_id == "") && session_can_access_device session device_id)

  abbrev pub is_selector : Option String → Bool
  is_selector none = false
  is_selector (some s) = s == "-s"

  -- The device and its command; both are strings of the array.
  abbrev pub authorize_command :
      Option String → Option String → AuthenticatedSession → Result (Unit {0})
  authorize_command (some device_id) (some command) session =
      granted (session_can_access_device session device_id && is_device_scoped_adb_command command)
  authorize_command _ _ session = err permission_denied

  abbrev pub authorize_args : Option (List J.Value) → AuthenticatedSession → Result (Unit {0})
  authorize_args (some (selector ∷ device ∷ command ∷ more)) session =
      if is_selector (J.as_str selector)
      then authorize_command (J.as_str device) (J.as_str command) session
      else err permission_denied
  authorize_args _ session = err permission_denied

  abbrev pub args_of : J.Value → Option (List J.Value)
  args_of params = elim (J.get params "args") [ none ↦ none | some value ↦ J.as_array value ]

  unfoldable pub authorize_user_core_request :
      RemoteRequest J.Value → AuthenticatedSession → Result (Unit {0})
  authorize_user_core_request request session =
      if contains request.method open_methods
      then ok tt
      else if contains request.method device_methods
      then authorize_device_id (string_of (J.get request.params "deviceId")) session
      else if request.method == "adb.exec"
      then authorize_args (args_of request.params) session
      else err permission_denied
