-- ===== src/Ipc/Host.antt =====
-- protocol.rs: what `CoreService` holds, what it asks of its host, and the checks that its handlers
-- share.
use webadbcontrol.Base.{ℕ, String, ◌<>◌, Bool, true, false, Option, none, some, List, ◌⊎◌, inl, inr}
use webadbcontrol.Base.Text.{Text, codes, is_blank}
use webadbcontrol.Error.{AppError, new, with_cause, Result, ok, err, ◌>>=◌, fail_if}
use webadbcontrol.Adb.Command.{ExitCode, exit_ok, exit_failed, AdbCommandOutput}
use webadbcontrol.Adb.KeepAlive.{AdbKeepAliveStatus}
use webadbcontrol.Adb.Platform.{
  HostTarget, from_parts, AdbAsset, AdbManifest, assets_error, find_adb_asset,
}
use webadbcontrol.Adb.Processes.{AdbProcessManager, StopAnswers}
use webadbcontrol.Adb.Wireless.{WirelessPairingManager, QrCode, QrDraw, RunOutput}
use webadbcontrol.Companion.Protocol.{CompanionConnectionInfo}
use webadbcontrol.Companion.Registry.{CompanionRegistry}
use webadbcontrol.Companion.Router.{CompanionCommandDispatch, CompanionCommandResponse}
use webadbcontrol.Ipc.{IpcResponse, failure}
use webadbcontrol.Remote.Storage.{Manager}
use webadbcontrol.Remote.LocalAdmin.{Turn}

-- `keepalive` is the status that the keep-alive thread shares, and `local_admin` the account manager
-- that the local administrator's service shares with the remote one.
pub record CoreService : Type 0 where
  pub manifest : AdbManifest
  pub companion_registry : CompanionRegistry
  pub companion_connection_info : Option CompanionConnectionInfo
  pub keepalive : Option AdbKeepAliveStatus
  pub wireless_pairing : WirelessPairingManager
  pub local_admin : Option Manager
  pub adb_processes : AdbProcessManager

-- What one request meets: the platform's names and the running program's directory, the runner and
-- the processes that adb starts as, the companion router, the keep-alive thread, the clock, and what
-- is drawn.
pub record Host (Value : Type 0) : Type 0 where
  pub os : String
  pub arch : String
  pub to_ascii_lowercase : String → String
  pub current_exe_parent : String ⊎ Option String
  pub join : String → String → String
  pub run : String → List Text → Result AdbCommandOutput
  pub spawn : String → List String → String ⊎ ℕ
  pub stopping : StopAnswers
  pub dispatch : CompanionCommandDispatch Value → Result (CompanionCommandResponse Value)
  pub thread_alive : Bool
  pub encode_qr : String → String ⊎ QrCode
  pub drawn : QrDraw
  pub unix_now : ℕ
  pub instant_now : ℕ
  pub turn : Turn

unfoldable pub ipc_params_invalid : String → AppError
unfolding new
ipc_params_invalid message = new "IPC_PARAMS_INVALID" message "ipc.protocol" false

abbrev pub parse_ipc_params {ℓ} : {A : Type ℓ} → String → String ⊎ A → Result A
parse_ipc_params expected_message (inl cause) =
    err (with_cause (ipc_params_invalid expected_message) cause)
parse_ipc_params expected_message (inr params) = ok params

unfoldable pub require_non_empty : String → String → Result (Unit {0})
require_non_empty value field_name =
    fail_if (is_blank value)
      (ipc_params_invalid ("Required IPC param is missing or empty: " <> field_name))

unfoldable pub resolve_asset_path :
    String ⊎ Option String → (String → String → String) → AdbAsset → Result String
resolve_asset_path (inl cause) join asset = err (
    with_cause
      (assets_error "CORE_EXECUTABLE_PATH_UNAVAILABLE" "Cannot resolve current executable path.")
      cause)
resolve_asset_path (inr none) join asset =
    err (
      assets_error "CORE_EXECUTABLE_DIR_UNAVAILABLE" "Cannot resolve current executable directory.")
resolve_asset_path (inr (some executable_dir)) join asset = ok (join executable_dir asset.path)

abbrev exit_is_zero : ExitCode → Bool
exit_is_zero exit_ok = true
exit_is_zero (exit_failed code) = false

module _ {Value : Type 0} (host : Host Value) where
  abbrev pub current_target : Result HostTarget
  current_target = from_parts host.to_ascii_lowercase host.os host.arch

  unfoldable pub resolve_current_adb_path : AdbManifest → Result String
  unfolding resolve_asset_path
  resolve_current_adb_path manifest = do
    target ← current_target
    asset ← find_adb_asset manifest target
    resolve_asset_path host.current_exe_parent host.join asset

  -- The runner, as pairing looks at its answer.
  abbrev pub pairing_runner : String → List Text → Result RunOutput
  pairing_runner adb_path args = do
    output ← host.run adb_path args
    ok (record { exit_is_zero = exit_is_zero output.exit_code; stdout = codes output.stdout })

  -- An error at a step is the answer.
  abbrev pub or_failure : String → Result (IpcResponse Value) → IpcResponse Value
  or_failure id (err e) = failure (some id) e
  or_failure id (ok response) = response

  abbrev pub checked {ℓ} :
      {A : Type ℓ}
      → String
      → CoreService
      → Result A
      → (A → IpcResponse Value × CoreService)
      → IpcResponse Value × CoreService
  checked id core (err e) rest = (failure (some id) e, core)
  checked id core (ok a) rest = rest a
