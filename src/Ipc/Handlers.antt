-- ===== src/Ipc/Handlers.antt =====
-- protocol.rs: the handlers that only read, and the one that passes a command on to a companion.
use webadbcontrol.Base.{String, ◌<>◌, true, not, List, [], ◌∷◌, map}
use webadbcontrol.Base.Text.{codes, contains}
use webadbcontrol.Error.{AppError, new, with_suggestion, Result, ok, ◌>>=◌, ◌>>◌, fail_if, or_fail}
use webadbcontrol.Adb.Command.{validate_adb_args}
use webadbcontrol.Adb.Platform.{find_adb_asset}
use webadbcontrol.Companion.Capability.{find_capability, android_companion_capability_catalog}
use webadbcontrol.Companion.Protocol.{companion_protocol, companion_protocol_version}
use webadbcontrol.Companion.Registry.{get_device}
use webadbcontrol.Companion.Router.{CompanionCommandDispatch}
use webadbcontrol.Ipc.{
  IpcRequest, success, DeviceInvokeParams, Reply, host_target, adb_asset, command_output,
  keepalive_status, connection_info, capabilities, permission_states, device_list, command_response,
  IpcJson, Response, response_from_serializable,
}
use webadbcontrol.Ipc.Host.{
  CoreService, Host, ipc_params_invalid, parse_ipc_params, require_non_empty, current_target,
  resolve_current_adb_path, or_failure,
}

unfoldable pub keepalive_not_started : AppError
unfolding new
keepalive_not_started =
    new "ADB_KEEPALIVE_NOT_STARTED"
      "ADB keep-alive supervisor is not running in this Core instance." "adb.keepalive" true

unfoldable pub listener_disabled : AppError
unfolding new with_suggestion
listener_disabled =
    with_suggestion
      (new "COMPANION_QUIC_LISTENER_DISABLED" "Core Companion QUIC listener is not configured."
        "companion.connection" true)
      "Set ADBCONTROL_COMPANION_LISTEN and restart Core."

unfoldable pub capability_not_exposed : String → String → AppError
unfolding new
capability_not_exposed capability_id device_id =
    new "COMPANION_CAPABILITY_NOT_FOUND"
      ("Capability " <> capability_id <> " is not exposed by device " <> device_id <> ".")
      "companion.registry" true

unfoldable pub operation_not_supported : String → String → AppError
unfolding new
operation_not_supported operation capability_id =
    new "COMPANION_OPERATION_NOT_SUPPORTED"
      ("Operation " <> operation <> " is not supported by capability " <> capability_id <> ".")
      "companion.registry" true

module _ (J : IpcJson) (host : Host J.Value) (core : CoreService) where
  abbrev pub respond : String → Reply J.Value → String → Result (Response J)
  respond id reply module_name = ok (response_from_serializable J id reply module_name)

  unfoldable pub handle_get_host_target : String → Response J
  handle_get_host_target id =
      or_failure host id
        (do target ← current_target host; respond id (host_target target) "platform.target")

  unfoldable pub handle_get_current_adb_asset : String → Response J
  handle_get_current_adb_asset id = or_failure host id (do
    target ← current_target host
    asset ← find_adb_asset core.manifest target
    respond id (adb_asset asset) "adb.assets")

  unfoldable pub handle_adb_exec : IpcRequest J.Value → Response J
  handle_adb_exec request = or_failure host request.id (do
    args ←
        parse_ipc_params "adb.exec params must match { args: string[] }."
          (J.adb_exec_params request.params)
    validate_adb_args args
    adb_path ← resolve_current_adb_path host core.manifest
    output ← host.run adb_path (map codes args)
    respond request.id (command_output output) "adb.runner")

  unfoldable pub handle_adb_keepalive_status : String → Response J
  handle_adb_keepalive_status id = or_failure host id (do
    status ← or_fail core.keepalive keepalive_not_started
    respond id (keepalive_status status) "adb.keepalive")

  abbrev texts : List String → J.Value
  texts names = J.array (map J.text names)

  unfoldable pub quic_protocol_descriptor : J.Value
  quic_protocol_descriptor = J.object (
      ("protocol", J.text companion_protocol)
      ∷ ("version", J.number companion_protocol_version)
      ∷ ("channels", texts ("control" ∷ "data" ∷ "media" ∷ []))
      ∷ (
        "messageKinds",
        texts (
            "hello" ∷ "helloAck" ∷ "heartbeat" ∷ "capabilityList" ∷ "permissionState"
            ∷ "commandRequest" ∷ "commandResponse" ∷ "streamOpen" ∷ "streamChunk" ∷ "streamClose"
            ∷ "error" ∷ []),
      )
      ∷ ("controlStream", J.text "JSON envelope over reliable QUIC stream")
      ∷ ("dataStream", J.text "length-prefixed binary or JSON envelope over reliable QUIC stream")
      ∷ ("mediaStream", J.text "binary frame stream or unreliable datagram depending on capability")
      ∷ [])

  unfoldable pub handle_companion_protocol_info : String → Response J
  handle_companion_protocol_info id = success id quic_protocol_descriptor

  unfoldable pub handle_companion_connection_info : String → Response J
  handle_companion_connection_info id = or_failure host id (do
    info ← or_fail core.companion_connection_info listener_disabled
    respond id (connection_info info) "companion.connection")

  unfoldable pub handle_capability_list : String → Response J
  handle_capability_list id =
      response_from_serializable J id (capabilities android_companion_capability_catalog)
        "capability.catalog"

  unfoldable pub handle_device_list : String → Response J
  handle_device_list id =
      response_from_serializable J id (device_list core.companion_registry) "companion.registry"

  unfoldable pub handle_device_get_capabilities : IpcRequest J.Value → Response J
  handle_device_get_capabilities request = or_failure host request.id (do
    device_id ←
        parse_ipc_params "device.getCapabilities params must match { deviceId: string }."
          (J.device_scoped_params request.params)
    require_non_empty device_id "deviceId"
    device ← get_device device_id core.companion_registry
    respond request.id (capabilities device.capabilities) "companion.registry")

  unfoldable pub handle_device_get_permission_state : IpcRequest J.Value → Response J
  handle_device_get_permission_state request = or_failure host request.id (do
    device_id ←
        parse_ipc_params "device.getPermissionState params must match { deviceId: string }."
          (J.device_scoped_params request.params)
    require_non_empty device_id "deviceId"
    device ← get_device device_id core.companion_registry
    respond request.id (permission_states device.permission_states) "companion.registry")

  -- The checks of `device.invoke` on what was asked for.
  unfoldable pub check_invoke : DeviceInvokeParams J.Value → Result (Unit {0})
  check_invoke params = do
    require_non_empty params.device_id "deviceId"
    require_non_empty params.capability_id "capabilityId"
    require_non_empty params.operation "operation"
    fail_if (not (J.is_object params.args))
        (ipc_params_invalid "device.invoke args must be a JSON object.")

  -- The device that is shown as connected, which must offer the operation.
  unfoldable pub check_offered : DeviceInvokeParams J.Value → Result (Unit {0})
  check_offered params = do
    device ← get_device params.device_id core.companion_registry
    capability ←
        or_fail (find_capability params.capability_id device.capabilities)
          (capability_not_exposed params.capability_id params.device_id)
    fail_if (not (contains params.operation capability.operations))
        (operation_not_supported params.operation params.capability_id)

  abbrev pub dispatch_of : String → DeviceInvokeParams J.Value → CompanionCommandDispatch J.Value
  dispatch_of request_id params = record {
    request_id = request_id;
    device_id = params.device_id;
    capability_id = params.capability_id;
    operation = params.operation;
    args = params.args;
  }

  unfoldable pub handle_device_invoke : IpcRequest J.Value → Response J
  unfolding check_invoke check_offered
  handle_device_invoke request = or_failure host request.id (do
    params ←
        parse_ipc_params
          "device.invoke params must match { deviceId, capabilityId, operation, args }."
          (J.device_invoke_params request.params)
    check_invoke params
    check_offered params
    response ← host.dispatch (dispatch_of request.id params)
    respond request.id (command_response response) "companion.router")
