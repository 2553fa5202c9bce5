-- ===== src/Ipc/Core.antt =====
-- protocol.rs: the handlers that change what `CoreService` holds, and the choice of the handler.
pub mod Answers
pub mod Invoke
pub mod Frame
pub mod Pace
use webadbcontrol.Base.{
  ℕ, String, ◌==◌, ◌<>◌, starts_with, Bool, true, false, ◌&&◌, ◌||◌, Option, none, some, List, [],
  ◌∷◌, map, if◌then◌else◌, ◌⊎◌, inl, inr, is_some, not,
}
use webadbcontrol.Error.{AppError, new, with_cause, Result, ok, err}
use webadbcontrol.Adb.KeepAlive.{AdbKeepAliveConfig, AdbKeepAliveStatus, configure}
use webadbcontrol.Adb.Processes.{start_scrcpy, stop_scrcpy}
use webadbcontrol.Adb.Scrcpy.{ScrcpyServerConfig}
use webadbcontrol.Adb.Wireless.{create_qr, pair, cancel}
use webadbcontrol.Ipc.{
  IpcRequest, success, failure, AdbKeepAliveConfigureParams, ScrcpyStartParams, scrcpy_process,
  keepalive_status, pairing_qr, pairing_result, IpcJson, Response, response_from_serializable,
}
use webadbcontrol.Ipc.Host.{
  CoreService, Host, ipc_params_invalid, parse_ipc_params, require_non_empty,
  resolve_current_adb_path, pairing_runner, checked,
}
use webadbcontrol.Ipc.Handlers.{
  keepalive_not_started, handle_get_host_target, handle_get_current_adb_asset, handle_adb_exec,
  handle_adb_keepalive_status, handle_companion_protocol_info, handle_companion_connection_info,
  handle_capability_list, handle_device_list, handle_device_get_capabilities,
  handle_device_get_permission_state, handle_device_invoke,
}
use webadbcontrol.Remote.Accounts.{Crates}
use webadbcontrol.Remote.Storage.{Manager}
use webadbcontrol.Remote.LocalAdmin.{local_handle_request}

unfoldable pub scrcpy_session_required : AppError
unfolding new
scrcpy_session_required =
    new "SCRCPY_SESSION_INVALID" "The scrcpy session id is required." "adb.scrcpy" false

unfoldable pub nothing_to_configure : AppError
unfolding ipc_params_invalid
nothing_to_configure =
    ipc_params_invalid "adb.keepalive.configure requires at least one of enabled / intervalSecs."

unfoldable pub method_unknown : String → AppError
unfolding new
method_unknown method =
    new "IPC_METHOD_UNKNOWN" ("Unknown IPC method: " <> method) "ipc.protocol" false

unfoldable pub admin_not_configured : AppError
unfolding new
admin_not_configured =
    new "REMOTE_ADMIN_NOT_CONFIGURED" "The local remote-administration service is not configured."
      "remote.auth" true

abbrev pub or_given {ℓ} : {A : Type ℓ} → Option A → A → A
or_given none default = default
or_given (some given) default = given

-- What the request leaves out stays as it is.
abbrev pub merged : AdbKeepAliveConfigureParams → AdbKeepAliveStatus → AdbKeepAliveConfig
merged params current = record {
  enabled = or_given params.enabled current.enabled;
  interval_secs = or_given params.interval_secs current.interval_secs;
}

abbrev pub config_of : ScrcpyStartParams → ScrcpyServerConfig
config_of params = record {
  session_id = params.session_id;
  device_id = params.device_id;
  apk_path = params.apk_path;
  scid = params.scid;
  max_size = params.max_size;
  video_bit_rate = params.video_bit_rate;
  max_fps = params.max_fps;
}

module _ (crates : Crates) (J : IpcJson) (host : Host J.Value) where
  abbrev pub Outcome : Type 0
  Outcome = Response J × CoreService

  unfoldable pub handle_adb_scrcpy_start : IpcRequest J.Value → CoreService → Outcome
  handle_adb_scrcpy_start request core =
      checked host request.id core
        (parse_ipc_params "adb.scrcpy.start params are invalid."
          (J.scrcpy_start_params request.params))
        (λ params.
          checked host request.id core (resolve_current_adb_path host core.manifest) (λ adb_path.
            let (started, processes) =
              start_scrcpy (host.spawn adb_path) (config_of params) core.adb_processes in
            checked host request.id (record core { adb_processes = processes }) started
              (λ process. (
                response_from_serializable J request.id (scrcpy_process process) "adb.scrcpy",
                record core { adb_processes = processes },
              ))))

  unfoldable pub handle_adb_scrcpy_stop : IpcRequest J.Value → CoreService → Outcome
  handle_adb_scrcpy_stop request core =
      checked host request.id core
        (parse_ipc_params "adb.scrcpy.stop params must match { sessionId: string }."
          (J.scrcpy_stop_params request.params))
        (λ session_id.
          if session_id == ""
          then (failure (some request.id) scrcpy_session_required, core)
          else (let (stopped, processes) =
                stop_scrcpy host.stopping session_id core.adb_processes in
              checked host request.id (record core { adb_processes = processes }) stopped
                (λ done. (
                  success request.id (J.object (("stopped", J.boolean done) ∷ [])),
                  record core { adb_processes = processes },
                ))))

  -- With the thread's status, and at least one of the parameters given.
  abbrev pub keepalive_configured :
      String → AdbKeepAliveConfigureParams → AdbKeepAliveStatus → CoreService → Outcome
  keepalive_configured id params status core =
      let (done, _, after) = configure (merged params status) host.thread_alive status in
      checked host id (record core { keepalive = some after }) done
        (λ _. (
          response_from_serializable J id (keepalive_status after) "adb.keepalive",
          record core { keepalive = some after },
        ))

  -- With the handle, if Core has one.
  abbrev pub configured_with :
      IpcRequest J.Value
      → AdbKeepAliveConfigureParams
      → Option AdbKeepAliveStatus
      → CoreService
      → Outcome
  configured_with request params none core = (failure (some request.id) keepalive_not_started, core)
  configured_with request params (some status) core =
      if not (is_some params.enabled) && not (is_some params.interval_secs)
      then (failure (some request.id) nothing_to_configure, core)
      else keepalive_configured request.id params status core

  unfoldable pub handle_adb_keepalive_configure : IpcRequest J.Value → CoreService → Outcome
  handle_adb_keepalive_configure request core =
      checked host request.id core
        (parse_ipc_params
          "adb.keepalive.configure params must match { enabled?: boolean, intervalSecs?: number }."
          (J.keepalive_configure_params request.params))
        (λ params. configured_with request params core.keepalive core)

  unfoldable pub handle_adb_wifi_qr_create : String → CoreService → Outcome
  handle_adb_wifi_qr_create id core =
      let (created, pending) =
        create_qr host.encode_qr host.drawn host.unix_now host.instant_now core.wireless_pairing in
      checked host id (record core { wireless_pairing = pending }) created
        (λ qr. (
          response_from_serializable J id (pairing_qr qr) "adb.wifi.qr",
          record core { wireless_pairing = pending },
        ))

  unfoldable pub handle_adb_wifi_qr_pair : IpcRequest J.Value → CoreService → Outcome
  handle_adb_wifi_qr_pair request core =
      checked host request.id core
        (parse_ipc_params "adb.wifi.qr.pair params must match { sessionId: string }."
          (J.qr_session_params request.params))
        (λ session_id.
          checked host {A = Unit {0}} request.id core (require_non_empty session_id "sessionId")
            (λ _.
              checked host request.id core (resolve_current_adb_path host core.manifest)
                (λ adb_path.
                  let (paired, pending) =
                    pair (pairing_runner host adb_path) session_id host.instant_now
                      core.wireless_pairing in
                  checked host request.id (record core { wireless_pairing = pending }) paired
                    (λ result. (
                      response_from_serializable J request.id (pairing_result result) "adb.wifi.qr",
                      record core { wireless_pairing = pending },
                    )))))

  unfoldable pub handle_adb_wifi_qr_cancel : IpcRequest J.Value → CoreService → Outcome
  handle_adb_wifi_qr_cancel request core =
      checked host request.id core
        (parse_ipc_params "adb.wifi.qr.cancel params must match { sessionId: string }."
          (J.qr_session_params request.params))
        (λ session_id.
          checked host {A = Unit {0}} request.id core (require_non_empty session_id "sessionId")
            (λ _. (
              success request.id (J.object (("cancelled", J.boolean true) ∷ [])),
              record core { wireless_pairing = cancel session_id core.wireless_pairing },
            )))

  abbrev pub administered : IpcRequest J.Value → Option Manager → CoreService → Outcome
  administered request none core = (failure (some request.id) admin_not_configured, core)
  administered request (some m) core =
      let (response, after) = local_handle_request crates J host.turn request m in
      (response, record core { local_admin = some after })

  unfoldable pub handle_admin : IpcRequest J.Value → CoreService → Outcome
  handle_admin request core = administered request core.local_admin core

  -- The `match` on the method: the handlers that change the state.
  unfoldable pub by_method : IpcRequest J.Value → CoreService → Outcome
  by_method request core =
      if request.method == "adb.scrcpy.start"
      then handle_adb_scrcpy_start request core
      else if request.method == "adb.scrcpy.stop"
      then handle_adb_scrcpy_stop request core
      else if request.method == "adb.keepalive.configure"
      then handle_adb_keepalive_configure request core
      else if request.method == "adb.wifi.qr.create"
      then handle_adb_wifi_qr_create request.id core
      else if request.method == "adb.wifi.qr.pair"
      then handle_adb_wifi_qr_pair request core
      else if request.method == "adb.wifi.qr.cancel"
      then handle_adb_wifi_qr_cancel request core
      else (failure (some request.id) (method_unknown request.method), core)

  -- The same `match`: the handlers that do not.
  unfoldable pub by_reading : IpcRequest J.Value → CoreService → Option (Response J)
  by_reading request core =
      if request.method == "core.getHostTarget"
      then some (handle_get_host_target J host core request.id)
      else if request.method == "adb.asset.current"
      then some (handle_get_current_adb_asset J host core request.id)
      else if request.method == "adb.exec"
      then some (handle_adb_exec J host core request)
      else if request.method == "adb.keepalive.status"
      then some (handle_adb_keepalive_status J host core request.id)
      else if request.method == "companion.protocol.info"
      then some (handle_companion_protocol_info J host core request.id)
      else if request.method == "companion.connection.info"
      then some (handle_companion_connection_info J host core request.id)
      else if request.method == "capability.list"
      then some (handle_capability_list J host core request.id)
      else if request.method == "device.list"
      then some (handle_device_list J host core request.id)
      else if request.method == "device.getCapabilities"
      then some (handle_device_get_capabilities J host core request)
      else if request.method == "device.getPermissionState"
      then some (handle_device_get_permission_state J host core request)
      else if request.method == "device.invoke"
      then some (handle_device_invoke J host core request)
      else none

  abbrev pub is_admin_method : String → Bool
  is_admin_method method =
      starts_with method "remote.admin." || starts_with method "remote.internal."

  unfoldable pub core_handle_request : IpcRequest J.Value → CoreService → Outcome
  core_handle_request request core =
      if is_admin_method request.method
      then handle_admin request core
      else elim (by_reading request core) [
        | some response ↦ (response, core)
        | none ↦ by_method request core
      ]
