-- ===== src/Remote/Forward/Passed.antt =====
-- What of a remote user's request reaches Core.
use webadbcontrol.Base.{◌≡◌, ◌⊎◌}
use webadbcontrol.Ipc.{IpcRequest, IpcResponse}
use webadbcontrol.Remote.Accounts.{AuthenticatedSession}
use webadbcontrol.Remote.Authorize.{RemoteRequest}
use webadbcontrol.Remote.Authorize.Grants.{Allowed}
use webadbcontrol.Remote.Devices.{JsonDocument, Json}
use webadbcontrol.Remote.Forward.{
  devices_query, ipc_request, resolve_request_device_alias, finished, forward_core_request,
}

module _ (D : JsonDocument) {Core : Type 0}
    (handle_core_request : IpcRequest (Json D) → Core → IpcResponse (Json D) × Core)
    (request : RemoteRequest (Json D)) (session : AuthenticatedSession) (core : Core) where
  -- Core as it is, or after it was asked for adb's devices.
  abbrev pub Consulted : Core → Type 0
  Consulted after = (after ≡ core) ⊎ (after ≡ (handle_core_request (devices_query D) core).1)

  -- The request that is made of Core, and the outcome: its answer, or for the device list what is made
  -- of it.
  pub record Passed : Type 0 where
    pub asked : RemoteRequest (Json D)
    pub before : Core
    pub consulted : Consulted before
    pub same_id : asked.id ≡ request.id
    pub same_method : asked.method ≡ request.method
    pub allowed : Allowed D.reads session asked
    pub outcome :
        forward_core_request D {Core = Core} handle_core_request request session core
        ≡ finished D handle_core_request session asked
            (handle_core_request (ipc_request D asked) before)

  -- The request with its alias resolved: only its parameters may differ.
  record Resolved (o : RemoteRequest (Json D) × Core) : Type 0 where
    consulted : Consulted o.1
    same_id : o.0.id ≡ request.id
    same_method : o.0.method ≡ request.method

  abbrev named : RemoteRequest (Json D) × Core
  named = resolve_request_device_alias D handle_core_request request session core
