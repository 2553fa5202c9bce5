-- ===== src/Ipc/Core/Invoke.antt =====
-- Which commands reach a companion's router.
use webadbcontrol.Base.{◌≡◌, true, some}
use webadbcontrol.Base.Text.{contains}
use webadbcontrol.Error.{Result, ok}
use webadbcontrol.Companion.Capability.{Capability, find_capability}
use webadbcontrol.Companion.Registry.{CompanionDevice, get_device}
use webadbcontrol.Companion.Router.{CompanionCommandDispatch, CompanionCommandResponse}
use webadbcontrol.Ipc.{IpcRequest, IpcJson, DeviceInvokeParams}
use webadbcontrol.Ipc.Host.{CoreService, Host}

module _ (J : IpcJson) (host : Host J.Value) (core : CoreService)
    (request : IpcRequest J.Value) where
  -- The device is shown as connected, and it offers the capability and its operation.
  pub record Offered (params : DeviceInvokeParams J.Value) : Type 0 where
    pub device : CompanionDevice
    pub capability : Capability
    pub connected : get_device params.device_id core.companion_registry ≡ ok device
    pub exposed : find_capability params.capability_id device.capabilities ≡ some capability
    pub supported : contains params.operation capability.operations ≡ true

  pub with_router :
      (CompanionCommandDispatch J.Value → Result (CompanionCommandResponse J.Value)) → Host J.Value
  with_router dispatch = record host { dispatch = dispatch }
