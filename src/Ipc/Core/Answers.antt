-- ===== src/Ipc/Core/Answers.antt =====
-- Every request to Core is answered under its own id.
use webadbcontrol.Base.{
  ◌≡◌, refl, ◌==◌, Bool, true, false, Option, none, some, if◌then◌else◌, inl, inr, Option-cases,
  arith,
}
use webadbcontrol.Ipc.{IpcRequest, IpcJson, Response}
use webadbcontrol.Ipc.Host.{CoreService, Host}
use webadbcontrol.Ipc.Handlers.{
  handle_get_host_target, handle_get_current_adb_asset, handle_adb_exec,
  handle_adb_keepalive_status, handle_companion_protocol_info, handle_companion_connection_info,
  handle_capability_list, handle_device_list, handle_device_get_capabilities,
  handle_device_get_permission_state, handle_device_invoke,
}
use webadbcontrol.Ipc.Core.{
  handle_adb_scrcpy_start, handle_adb_scrcpy_stop, handle_adb_keepalive_configure,
  handle_adb_wifi_qr_create, handle_adb_wifi_qr_pair, handle_adb_wifi_qr_cancel, administered,
  handle_admin, by_method, by_reading, is_admin_method, core_handle_request,
}
use webadbcontrol.Ipc.Responses.{Answers}
use webadbcontrol.Remote.Accounts.{Crates}
use webadbcontrol.Remote.Storage.{Manager}
use webadbcontrol.Remote.LocalAdmin.Answers.{local_handle_request-Answers}

module _ (J : IpcJson) (host : Host J.Value) (core : CoreService)
    (request : IpcRequest J.Value) where
  handle_get_host_target-Answers :
      Answers request.id (handle_get_host_target J host core request.id)
  unfolding handle_get_host_target
  handle_get_host_target-Answers = ground arith

  handle_get_current_adb_asset-Answers :
      Answers request.id (handle_get_current_adb_asset J host core request.id)
  unfolding handle_get_current_adb_asset
  handle_get_current_adb_asset-Answers = ground arith

  handle_adb_keepalive_status-Answers :
      Answers request.id (handle_adb_keepalive_status J host core request.id)
  unfolding handle_adb_keepalive_status
  handle_adb_keepalive_status-Answers = ground arith

  handle_companion_protocol_info-Answers :
      Answers request.id (handle_companion_protocol_info J host core request.id)
  unfolding handle_companion_protocol_info
  handle_companion_protocol_info-Answers = ground arith

  handle_companion_connection_info-Answers :
      Answers request.id (handle_companion_connection_info J host core request.id)
  unfolding handle_companion_connection_info
  handle_companion_connection_info-Answers = ground arith

  handle_capability_list-Answers :
      Answers request.id (handle_capability_list J host core request.id)
  unfolding handle_capability_list
  handle_capability_list-Answers = ground arith

  handle_device_list-Answers : Answers request.id (handle_device_list J host core request.id)
  unfolding handle_device_list
  handle_device_list-Answers = ground arith

  handle_adb_exec-Answers : Answers request.id (handle_adb_exec J host core request)
  unfolding handle_adb_exec
  handle_adb_exec-Answers = ground arith

  handle_device_get_capabilities-Answers :
      Answers request.id (handle_device_get_capabilities J host core request)
  unfolding handle_device_get_capabilities
  handle_device_get_capabilities-Answers = ground arith

  handle_device_get_permission_state-Answers :
      Answers request.id (handle_device_get_permission_state J host core request)
  unfolding handle_device_get_permission_state
  handle_device_get_permission_state-Answers = ground arith

  handle_device_invoke-Answers : Answers request.id (handle_device_invoke J host core request)
  unfolding handle_device_invoke
  handle_device_invoke-Answers = ground arith

module _ (crates : Crates) (J : IpcJson) (host : Host J.Value) (request : IpcRequest J.Value)
    (core : CoreService) where
  handle_adb_scrcpy_start-Answers :
      Answers request.id (handle_adb_scrcpy_start crates J host request core).0
  unfolding handle_adb_scrcpy_start
  handle_adb_scrcpy_start-Answers = ground arith

  handle_adb_scrcpy_stop-Answers :
      Answers request.id (handle_adb_scrcpy_stop crates J host request core).0
  unfolding handle_adb_scrcpy_stop
  handle_adb_scrcpy_stop-Answers = ground arith

  handle_adb_keepalive_configure-Answers :
      Answers request.id (handle_adb_keepalive_configure crates J host request core).0
  unfolding handle_adb_keepalive_configure
  handle_adb_keepalive_configure-Answers = ground arith

  handle_adb_wifi_qr_pair-Answers :
      Answers request.id (handle_adb_wifi_qr_pair crates J host request core).0
  unfolding handle_adb_wifi_qr_pair
  handle_adb_wifi_qr_pair-Answers = ground arith

  handle_adb_wifi_qr_cancel-Answers :
      Answers request.id (handle_adb_wifi_qr_cancel crates J host request core).0
  unfolding handle_adb_wifi_qr_cancel
  handle_adb_wifi_qr_cancel-Answers = ground arith

  handle_adb_wifi_qr_create-Answers :
      Answers request.id (handle_adb_wifi_qr_create crates J host request.id core).0
  unfolding handle_adb_wifi_qr_create
  handle_adb_wifi_qr_create-Answers = ground arith

  administered-Answers :
      (o : Option Manager) → Answers request.id (administered crates J host request o core).0
  administered-Answers none = (refl, refl)
  administered-Answers (some m) = local_handle_request-Answers crates J host.turn request m

  handle_admin-Answers : Answers request.id (handle_admin crates J host request core).0
  unfolding handle_admin
  handle_admin-Answers = administered-Answers core.local_admin

  -- What `by_reading` gives, if it gives an answer.
  OptionAnswers : Option (Response J) → Type 0
  OptionAnswers none = Unit
  OptionAnswers (some response) = Answers request.id response

  some-Answers :
      (o : Option (Response J)) (response : Response J)
      → o ≡ some response
      → OptionAnswers o
      → Answers request.id response
  unfolding OptionAnswers
  some-Answers none response e a = absurd (ground arith)
  some-Answers (some x) response e a = let same : x ≡ response = ground arith in rw⁻¹ same a

  either-OptionAnswers :
      (b : Bool) (x : Response J) (y : Option (Response J))
      → Answers request.id x
      → OptionAnswers y
      → OptionAnswers (if b then some x else y)
  unfolding OptionAnswers
  either-OptionAnswers true x y ax ay = ax
  either-OptionAnswers false x y ax ay = ay

  by_reading-OptionAnswers : OptionAnswers (by_reading crates J host request core)
  unfolding by_reading OptionAnswers
  by_reading-OptionAnswers =
      (either-OptionAnswers (request.method == "core.getHostTarget") _ _
        (handle_get_host_target-Answers J host core request)
        (either-OptionAnswers (request.method == "adb.asset.current") _ _
          (handle_get_current_adb_asset-Answers J host core request)
          (either-OptionAnswers (request.method == "adb.exec") _ _
            (handle_adb_exec-Answers J host core request)
            (either-OptionAnswers (request.method == "adb.keepalive.status") _ _
              (handle_adb_keepalive_status-Answers J host core request)
              (either-OptionAnswers (request.method == "companion.protocol.info") _ _
                (handle_companion_protocol_info-Answers J host core request)
                (either-OptionAnswers (request.method == "companion.connection.info") _ _
                  (handle_companion_connection_info-Answers J host core request)
                  (either-OptionAnswers (request.method == "capability.list") _ _
                    (handle_capability_list-Answers J host core request)
                    (either-OptionAnswers (request.method == "device.list") _ _
                      (handle_device_list-Answers J host core request)
                      (either-OptionAnswers (request.method == "device.getCapabilities") _ _
                        (handle_device_get_capabilities-Answers J host core request)
                        (either-OptionAnswers (request.method == "device.getPermissionState") _ _
                          (handle_device_get_permission_state-Answers J host core request)
                          (either-OptionAnswers (request.method == "device.invoke") _ _
                            (handle_device_invoke-Answers J host core request) tt)))))))))))

  either-Answers :
      (b : Bool) (x y : Response J × CoreService)
      → Answers request.id x.0
      → Answers request.id y.0
      → Answers request.id (if b then x else y).0
  either-Answers true x y ax ay = ax
  either-Answers false x y ax ay = ay

  by_method-Answers : Answers request.id (by_method crates J host request core).0
  unfolding by_method
  by_method-Answers =
      (either-Answers (request.method == "adb.scrcpy.start") _ _ handle_adb_scrcpy_start-Answers (
        either-Answers (request.method == "adb.scrcpy.stop") _ _ handle_adb_scrcpy_stop-Answers (
          either-Answers (request.method == "adb.keepalive.configure") _ _
            handle_adb_keepalive_configure-Answers
            (either-Answers (request.method == "adb.wifi.qr.create") _ _
              handle_adb_wifi_qr_create-Answers
              (either-Answers (request.method == "adb.wifi.qr.pair") _ _
                handle_adb_wifi_qr_pair-Answers
                (either-Answers (request.method == "adb.wifi.qr.cancel") _ _
                  handle_adb_wifi_qr_cancel-Answers (refl, refl)))))))

  -- Every request is answered under its own id, with a result and no error or with an error and no
  -- result, as the response's `ok` says: whatever its method and parameters, and whatever the host and
  -- the libraries answer.
  pub core_handle_request-Answers :
      Answers request.id (core_handle_request crates J host request core).0
  unfolding core_handle_request OptionAnswers
  core_handle_request-Answers =
      either-Answers (is_admin_method crates J host request.method) _ _ handle_admin-Answers
        (elim (Option-cases (by_reading crates J host request core)) [
          | inl other ↦ rw other by_method-Answers
          | inr (response, read) ↦ rw read (
              some-Answers (by_reading crates J host request core) response read
                by_reading-OptionAnswers)
        ])
