-- ===== src/Remote/Forward.antt =====
-- remote/service.rs: how a request is passed on to Core. The handler of Core is a parameter, as it is
-- one of the service; it may change its state.
pub mod Passed
use webadbcontrol.Base.{
  String, ◌==◌, Bool, true, false, not, ◌&&◌, Option, none, some, List, [], ◌∷◌, any, if◌then◌else◌,
}
use webadbcontrol.Base.Text.{contains}
use webadbcontrol.Base.Map.{keys}
use webadbcontrol.Error.{AppError, new, Result, ok, err}
use webadbcontrol.Ipc.{IpcRequest, IpcResponse, failure}
use webadbcontrol.Remote.Accounts.{AuthenticatedSession, is_admin_role}
use webadbcontrol.Remote.Authorize.{
  RemoteRequest, device_methods, args_of, authorize_user_core_request,
}
use webadbcontrol.Remote.Devices.{
  JsonDocument, Json, text_of, matches, find_same, connected_ids, lines,
  reconcile_remote_device_list,
}
use webadbcontrol.Remote.Identity.{session_can_access_device}

module _ (D : JsonDocument) where
  abbrev pub devices_query : IpcRequest (Json D)
  devices_query = record {
    id = "remote-current-adb-devices";
    method = "adb.exec";
    params = D.object (("args", D.array (D.string "devices" ∷ D.string "-l" ∷ [])) ∷ []);
  }

  abbrev pub has_device_query : IpcRequest (Json D)
  has_device_query = record {
    id = "remote-assignment-device-check";
    method = "device.list";
    params = D.object [];
  }

  abbrev pub stdout_of : Option (Json D) → Option String
  stdout_of none = none
  stdout_of (some value) = text_of D value "stdout"

  abbrev pub ids_of : Option String → List String
  ids_of none = []
  ids_of (some stdout) = connected_ids (lines stdout)

  abbrev pub array_of : Option (Json D) → Option (List (Json D))
  array_of none = none
  array_of (some value) = D.reads.as_array value

  abbrev pub lists_device : String → Option (List (Json D)) → Bool
  lists_device device_id none = false
  lists_device device_id (some devices) =
      any (λ device. matches D (λ known. known == device_id) (text_of D device "deviceId")) devices

  abbrev pub second : Option (List (Json D)) → Option String
  second (some (first ∷ argument ∷ more)) = D.reads.as_str argument
  second _ = none

  abbrev pub with_second : String → List (Json D) → List (Json D)
  with_second current (first ∷ argument ∷ more) = first ∷ D.string current ∷ more
  with_second current args = args

  -- The device id that the request names, where it may name one.
  abbrev pub requested_id : RemoteRequest (Json D) → Option String
  requested_id request =
      if request.method == "adb.exec"
      then second (args_of D.reads request.params)
      else if contains request.method device_methods
      then text_of D request.params "deviceId"
      else none

  abbrev pub with_args : String → Option (List (Json D)) → Json D → Json D
  with_args current none params = params
  with_args current (some args) params = D.set params "args" (D.array (with_second current args))

  abbrev pub renamed : String → RemoteRequest (Json D) → RemoteRequest (Json D)
  renamed current request = record request {
    params =
        if request.method == "adb.exec"
        then with_args current (args_of D.reads request.params) request.params
        else D.set request.params "deviceId" (D.string current);
  }

  abbrev pub renamed_if : Option String → RemoteRequest (Json D) → RemoteRequest (Json D)
  renamed_if none request = request
  renamed_if (some current) request = renamed current request

  abbrev pub ipc_request : RemoteRequest (Json D) → IpcRequest (Json D)
  ipc_request request = record { id = request.id; method = request.method; params = request.params }

  module _ {Core : Type 0}
      (handle_core_request : IpcRequest (Json D) → Core → IpcResponse (Json D) × Core) where
    abbrev pub current_adb_device_ids : Core → List String × Core
    current_adb_device_ids core =
        let (response, after) = handle_core_request devices_query core in
        (ids_of (stdout_of response.result), after)

    abbrev pub core_has_device : String → Core → Bool × Core
    core_has_device device_id core =
        let (response, after) = handle_core_request has_device_query core in
        (lists_device device_id (array_of response.result), after)

    -- The request, with the id that adb now has for the device, and what Core is after it was asked.
    abbrev pub resolved :
        Option String
        → RemoteRequest (Json D)
        → AuthenticatedSession
        → Core
        → RemoteRequest (Json D) × Core
    resolved none request session core = (request, core)
    resolved (some requested) request session core =
        if not (session_can_access_device session requested)
        then (request, core)
        else (let (ids, after) = current_adb_device_ids core in
            (renamed_if (find_same requested ids) request, after))

    unfoldable pub resolve_request_device_alias :
        RemoteRequest (Json D) → AuthenticatedSession → Core → RemoteRequest (Json D) × Core
    resolve_request_device_alias request session core =
        resolved (requested_id request) request session core

    abbrev pub reconciled :
        AuthenticatedSession
        → Option (List (Json D))
        → IpcResponse (Json D)
        → Core
        → IpcResponse (Json D) × Core
    reconciled session none response core = (response, core)
    reconciled session (some devices) response core =
        let (ids, after) = current_adb_device_ids core in
        (
          record response {
            result = some (D.array (reconcile_remote_device_list D devices session ids));
          },
          after,
        )

    -- What is done with Core's answer for a user.
    abbrev pub finished :
        AuthenticatedSession
        → RemoteRequest (Json D)
        → IpcResponse (Json D) × Core
        → IpcResponse (Json D) × Core
    finished session request (response, core) =
        if request.method == "device.list" && response.ok
        then reconciled session (array_of response.result) response core
        else (response, core)

    -- A user's request, with its alias resolved.
    unfoldable pub forward_resolved :
        AuthenticatedSession → RemoteRequest (Json D) → Core → IpcResponse (Json D) × Core
    forward_resolved session request core =
        elim (authorize_user_core_request D.reads request session) [
          | err e ↦ (failure (some request.id) e, core)
          | ok _ ↦ finished session request (handle_core_request (ipc_request request) core)
        ]

    unfoldable pub forward_core_request :
        RemoteRequest (Json D) → AuthenticatedSession → Core → IpcResponse (Json D) × Core
    unfolding resolve_request_device_alias forward_resolved
    forward_core_request request session core =
        if is_admin_role session.role
        then handle_core_request (ipc_request request) core
        else (let (named, after) = resolve_request_device_alias request session core in
            forward_resolved session named after)
