-- ===== src/Ipc.antt =====
-- core/crates/adbcontrol-core/src/protocol.rs: the requests and responses of the local IPC, and what
-- serde_json makes of them.

pub mod Host
pub mod Handlers
pub mod Core
pub mod Responses
pub mod Lines
pub mod Examples
mod Tests
use webadbcontrol.Base.{ℕ, String, Bool, true, false, Option, none, some, List, ◌⊎◌, inl, inr}
use webadbcontrol.Error.{AppError, new, with_cause}
use webadbcontrol.Adb.Command.{AdbCommandOutput}
use webadbcontrol.Adb.KeepAlive.{AdbKeepAliveStatus}
use webadbcontrol.Adb.Platform.{HostTarget, AdbAsset}
use webadbcontrol.Adb.Processes.{ScrcpyServerProcess}
use webadbcontrol.Adb.Wireless.{WirelessPairingQr, WirelessPairingResult}
use webadbcontrol.Companion.Capability.{Capability, CapabilityPermissionState}
use webadbcontrol.Companion.Registry.{CompanionDevice}
use webadbcontrol.Companion.Router.{CompanionCommandResponse}
use webadbcontrol.Companion.Protocol.{CompanionConnectionInfo}
use webadbcontrol.Remote.Accounts.{RemoteAccount}

pub record IpcRequest (Value : Type 0) : Type 0 where
  pub id : String
  pub method : String
  pub params : Value

pub record IpcResponse (Value : Type 0) : Type 0 where
  pub id : Option String
  pub ok : Bool
  pub result : Option Value
  pub error : Option AppError

module _ {Value : Type 0} where
  abbrev pub success : String → Value → IpcResponse Value
  success id result = record { id = some id; ok = true; result = some result; error = none }

  abbrev pub failure : Option String → AppError → IpcResponse Value
  failure id e = record { id = id; ok = false; result = none; error = some e }

pub record DeviceInvokeParams (Value : Type 0) : Type 0 where
  pub device_id : String
  pub capability_id : String
  pub operation : String
  pub args : Value

pub record AdbKeepAliveConfigureParams : Type 0 where
  pub enabled : Option Bool
  pub interval_secs : Option ℕ

pub record ScrcpyStartParams : Type 0 where
  pub session_id : String
  pub device_id : String
  pub apk_path : String
  pub scid : ℕ
  pub max_size : ℕ
  pub video_bit_rate : ℕ
  pub max_fps : ℕ

-- The types whose values a response carries.
pub data Reply (Value : Type 0) : Type 0 where
  host_target : HostTarget → Reply Value
  adb_asset : AdbAsset → Reply Value
  command_output : AdbCommandOutput → Reply Value
  scrcpy_process : ScrcpyServerProcess → Reply Value
  keepalive_status : AdbKeepAliveStatus → Reply Value
  pairing_qr : WirelessPairingQr → Reply Value
  pairing_result : WirelessPairingResult → Reply Value
  connection_info : CompanionConnectionInfo → Reply Value
  capabilities : List Capability → Reply Value
  permission_states : List CapabilityPermissionState → Reply Value
  device_list : List CompanionDevice → Reply Value
  command_response : CompanionCommandResponse Value → Reply Value
  account : RemoteAccount → Reply Value
  accounts : List RemoteAccount → Reply Value

-- serde_json: its values, what `json!` builds, `to_value`, and the decoders of the parameter types,
-- which fill in the fields' defaults. A parameter type of one or two fields is those fields.
pub record IpcJson : Type 1 where
  pub Value : Type 0
  pub text : String → Value
  pub number : ℕ → Value
  pub boolean : Bool → Value
  pub array : List Value → Value
  pub object : List (String × Value) → Value
  pub is_object : Value → Bool
  pub to_value : Reply Value → String ⊎ Value
  pub adb_exec_params : Value → String ⊎ List String
  pub device_scoped_params : Value → String ⊎ String
  pub device_invoke_params : Value → String ⊎ DeviceInvokeParams Value
  pub keepalive_configure_params : Value → String ⊎ AdbKeepAliveConfigureParams
  pub scrcpy_start_params : Value → String ⊎ ScrcpyStartParams
  pub scrcpy_stop_params : Value → String ⊎ String
  pub qr_session_params : Value → String ⊎ String
  pub inspect_params : Value → String ⊎ String
  pub admin_login_params : Value → String ⊎ String
  pub admin_session_params : Value → String ⊎ String
  pub admin_password_params : Value → String ⊎ (String × String)
  pub admin_create_params : Value → String ⊎ (String × String)
  pub admin_delete_params : Value → String ⊎ String
  pub admin_reset_params : Value → String ⊎ (String × String)
  pub admin_assign_params : Value → String ⊎ (String × String × Bool)

unfoldable pub serialization_failed : String → String → String → String → AppError
unfolding new with_cause
serialization_failed error_code message module_name cause =
    with_cause (new error_code message module_name false) cause

module _ (J : IpcJson) where
  abbrev pub Response : Type 0
  Response = IpcResponse J.Value

  abbrev pub response_from_serializable : String → Reply J.Value → String → Response
  response_from_serializable id reply module_name = elim (J.to_value reply) [
    | inr value ↦ success id value
    | inl cause ↦ failure (some id) (
        serialization_failed "IPC_RESPONSE_SERIALIZATION_FAILED"
          "Core failed to serialize IPC response." module_name cause)
  ]
