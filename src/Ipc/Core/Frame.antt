-- ===== src/Ipc/Core/Frame.antt =====
-- What a request may change.
use webadbcontrol.Base.{
  ◌≡◌, refl, String, ◌==◌, Bool, true, false, not, ◌&&◌, ◌||◌, Option, none, some, if◌then◌else◌,
  is_some, inl, inr, ◌⊎◌, Bool-cases, Option-cases, arith,
}
use webadbcontrol.Error.{Result, ok, err}
use webadbcontrol.Adb.KeepAlive.{AdbKeepAliveStatus, configure}
use webadbcontrol.Ipc.{IpcRequest, IpcJson, Response, AdbKeepAliveConfigureParams}
use webadbcontrol.Adb.Processes.{AdbProcessManager, start_scrcpy, stop_scrcpy}
use webadbcontrol.Adb.Wireless.{WirelessPairingManager, create_qr, pair, cancel}
use webadbcontrol.Ipc.Host.{
  CoreService, Host, checked, parse_ipc_params, require_non_empty, resolve_current_adb_path,
  pairing_runner,
}
use webadbcontrol.Ipc.Core.{
  merged, config_of, handle_adb_scrcpy_start, handle_adb_scrcpy_stop, configured_with,
  handle_adb_keepalive_configure, handle_adb_wifi_qr_create, handle_adb_wifi_qr_pair,
  handle_adb_wifi_qr_cancel, administered, handle_admin, by_method, by_reading, is_admin_method,
  core_handle_request,
}
use webadbcontrol.Remote.Accounts.{Crates}
use webadbcontrol.Remote.Storage.{Manager}

abbrev pub is_keepalive_method : String → Bool
is_keepalive_method method = method == "adb.keepalive.configure"

abbrev pub is_pairing_method : String → Bool
is_pairing_method method =
    method == "adb.wifi.qr.create" || method == "adb.wifi.qr.pair" || method == "adb.wifi.qr.cancel"

abbrev pub is_scrcpy_method : String → Bool
is_scrcpy_method method = method == "adb.scrcpy.start" || method == "adb.scrcpy.stop"

module _ (crates : Crates) (J : IpcJson) (host : Host J.Value) (request : IpcRequest J.Value)
    (core : CoreService) where
  -- The parts of `core` that no request changes, and the four that only their own methods change.
  pub record Frame (after : CoreService) : Type 0 where
    pub manifest : after.manifest ≡ core.manifest
    pub registry : after.companion_registry ≡ core.companion_registry
    pub info : after.companion_connection_info ≡ core.companion_connection_info
    pub accounts :
        (is_admin_method crates J host request.method ≡ true)
        ⊎ (after.local_admin ≡ core.local_admin)
    pub keepalive : (is_keepalive_method request.method ≡ true) ⊎ (after.keepalive ≡ core.keepalive)
    pub pairing :
        (is_pairing_method request.method ≡ true) ⊎ (after.wireless_pairing ≡ core.wireless_pairing)
    pub processes :
        (is_scrcpy_method request.method ≡ true) ⊎ (after.adb_processes ≡ core.adb_processes)

  same-Frame : Frame core
  same-Frame = record {
    manifest = refl;
    registry = refl;
    info = refl;
    accounts = inr refl;
    keepalive = inr refl;
    pairing = inr refl;
    processes = inr refl;
  }

  -- An outcome that changes at most one part.
  checked-Frame {ℓ} :
      {A : Type ℓ} (after : CoreService) (r : Result A) (rest : A → Response J × CoreService)
      → Frame after
      → ((a : A) → Frame (rest a).1)
      → Frame (checked host request.id after r rest).1
  checked-Frame after (err e) rest stays goes = stays
  checked-Frame after (ok a) rest stays goes = goes a

  processes-Frame :
      (is_scrcpy_method request.method ≡ true)
      → (p : AdbProcessManager) → Frame (record core { adb_processes = p })
  processes-Frame own p = record {
    manifest = refl;
    registry = refl;
    info = refl;
    accounts = inr refl;
    keepalive = inr refl;
    pairing = inr refl;
    processes = inl own;
  }

  keepalive-Frame :
      is_keepalive_method request.method ≡ true
      → (s : Option AdbKeepAliveStatus) → Frame (record core { keepalive = s })
  keepalive-Frame own s = record {
    manifest = refl;
    registry = refl;
    info = refl;
    accounts = inr refl;
    keepalive = inl own;
    pairing = inr refl;
    processes = inr refl;
  }

  pairing-Frame :
      is_pairing_method request.method ≡ true
      → (p : WirelessPairingManager) → Frame (record core { wireless_pairing = p })
  pairing-Frame own p = record {
    manifest = refl;
    registry = refl;
    info = refl;
    accounts = inr refl;
    keepalive = inr refl;
    pairing = inl own;
    processes = inr refl;
  }

  handle_adb_scrcpy_start-Frame :
      is_scrcpy_method request.method ≡ true
      → Frame (handle_adb_scrcpy_start crates J host request core).1
  unfolding handle_adb_scrcpy_start
  handle_adb_scrcpy_start-Frame own =
      checked-Frame core
        (parse_ipc_params "adb.scrcpy.start params are invalid."
          (J.scrcpy_start_params request.params))
        _ same-Frame
        (λ params.
          checked-Frame core (resolve_current_adb_path host core.manifest) _ same-Frame (λ path.
            let (started, processes) =
              start_scrcpy (host.spawn path) (config_of params) core.adb_processes in
            let done = processes-Frame own processes in
            checked-Frame (record core { adb_processes = processes }) started _ done (λ _. done)))

  handle_adb_scrcpy_stop-Frame :
      is_scrcpy_method request.method ≡ true
      → Frame (handle_adb_scrcpy_stop crates J host request core).1
  unfolding handle_adb_scrcpy_stop
  handle_adb_scrcpy_stop-Frame own =
      checked-Frame core
        (parse_ipc_params "adb.scrcpy.stop params must match { sessionId: string }."
          (J.scrcpy_stop_params request.params))
        _ same-Frame
        (λ session_id.
          let (stopped, processes) = stop_scrcpy host.stopping session_id core.adb_processes in
          let done = processes-Frame own processes in
          elim (Bool-cases (session_id == "")) [
            | inl empty ↦ rw empty same-Frame
            | inr named ↦ rw named (
                checked-Frame (record core { adb_processes = processes }) stopped _ done
                  (λ _. done))
          ])

  handle_adb_wifi_qr_create-Frame :
      is_pairing_method request.method ≡ true
      → Frame (handle_adb_wifi_qr_create crates J host request.id core).1
  unfolding handle_adb_wifi_qr_create
  handle_adb_wifi_qr_create-Frame own =
      let (created, pending) =
        create_qr host.encode_qr host.drawn host.unix_now host.instant_now core.wireless_pairing in
      let done = pairing-Frame own pending in
      checked-Frame (record core { wireless_pairing = pending }) created _ done (λ _. done)

  handle_adb_wifi_qr_pair-Frame :
      is_pairing_method request.method ≡ true
      → Frame (handle_adb_wifi_qr_pair crates J host request core).1
  unfolding handle_adb_wifi_qr_pair
  handle_adb_wifi_qr_pair-Frame own =
      checked-Frame core
        (parse_ipc_params "adb.wifi.qr.pair params must match { sessionId: string }."
          (J.qr_session_params request.params))
        _ same-Frame
        (λ session_id.
          checked-Frame {A = Unit {0}} core (require_non_empty session_id "sessionId") _ same-Frame
            (λ _.
              checked-Frame core (resolve_current_adb_path host core.manifest) _ same-Frame (λ path.
                let (paired, pending) =
                  pair (pairing_runner host path) session_id host.instant_now
                    core.wireless_pairing in
                let done = pairing-Frame own pending in
                checked-Frame (record core { wireless_pairing = pending }) paired _ done
                  (λ _. done))))

  handle_adb_wifi_qr_cancel-Frame :
      is_pairing_method request.method ≡ true
      → Frame (handle_adb_wifi_qr_cancel crates J host request core).1
  unfolding handle_adb_wifi_qr_cancel
  handle_adb_wifi_qr_cancel-Frame own =
      checked-Frame core
        (parse_ipc_params "adb.wifi.qr.cancel params must match { sessionId: string }."
          (J.qr_session_params request.params))
        _ same-Frame
        (λ session_id.
          checked-Frame {A = Unit {0}} core (require_non_empty session_id "sessionId") _ same-Frame
            (λ _. pairing-Frame own (cancel session_id core.wireless_pairing)))

  configured_with-Frame :
      is_keepalive_method request.method ≡ true
      → (params : AdbKeepAliveConfigureParams) (o : Option AdbKeepAliveStatus)
      → Frame (configured_with crates J host request params o core).1
  configured_with-Frame own params none = same-Frame
  configured_with-Frame own params (some status) =
      elim (Bool-cases (not (is_some params.enabled) && not (is_some params.interval_secs))) [
        | inl nothing ↦ rw nothing same-Frame
        | inr something ↦
            let (done, _, after) = configure (merged params status) host.thread_alive status in
            let framed = keepalive-Frame own (some after) in
            rw something (
              checked-Frame {A = Unit {0}} (record core { keepalive = some after }) done _ framed
                (λ _. framed))
      ]

  handle_adb_keepalive_configure-Frame :
      is_keepalive_method request.method ≡ true
      → Frame (handle_adb_keepalive_configure crates J host request core).1
  unfolding handle_adb_keepalive_configure
  handle_adb_keepalive_configure-Frame own =
      checked-Frame core
        (parse_ipc_params
          "adb.keepalive.configure params must match { enabled?: boolean, intervalSecs?: number }."
          (J.keepalive_configure_params request.params))
        _ same-Frame (λ params. configured_with-Frame own params core.keepalive)

  either-Frame :
      (b : Bool) (x y : Response J × CoreService)
      → ((b ≡ true) → Frame x.1)
      → Frame y.1
      → Frame (if b then x else y).1
  either-Frame true x y fx fy = fx refl
  either-Frame false x y fx fy = fy

  by_method-Frame : Frame (by_method crates J host request core).1
  unfolding by_method
  by_method-Frame =
      either-Frame (request.method == "adb.scrcpy.start") _ _
        (λ e. handle_adb_scrcpy_start-Frame (ground arith))
        (either-Frame (request.method == "adb.scrcpy.stop") _ _
          (λ e. handle_adb_scrcpy_stop-Frame (ground arith))
          (either-Frame (request.method == "adb.keepalive.configure") _ _
            (λ e. handle_adb_keepalive_configure-Frame e)
            (either-Frame (request.method == "adb.wifi.qr.create") _ _
              (λ e. handle_adb_wifi_qr_create-Frame (ground arith))
              (either-Frame (request.method == "adb.wifi.qr.pair") _ _
                (λ e. handle_adb_wifi_qr_pair-Frame (ground arith))
                (either-Frame (request.method == "adb.wifi.qr.cancel") _ _
                  (λ e. handle_adb_wifi_qr_cancel-Frame (ground arith)) same-Frame)))))

  administered-Frame :
      is_admin_method crates J host request.method ≡ true
      → (o : Option Manager) → Frame (administered crates J host request o core).1
  administered-Frame own none = same-Frame
  administered-Frame own (some m) = record {
    manifest = refl;
    registry = refl;
    info = refl;
    accounts = inl own;
    keepalive = inr refl;
    pairing = inr refl;
    processes = inr refl;
  }

  handle_admin-Frame :
      is_admin_method crates J host request.method ≡ true
      → Frame (handle_admin crates J host request core).1
  unfolding handle_admin
  handle_admin-Frame own = administered-Frame own core.local_admin

  -- No request changes the manifest, the registry of companions or the connection's address. The
  -- accounts change only by the administrator's methods, the keep-alive only by its configuration,
  -- the pending pairings only by the pairing methods, and the processes only by the scrcpy methods.
  pub core_handle_request-Frame : Frame (core_handle_request crates J host request core).1
  unfolding core_handle_request
  core_handle_request-Frame =
      either-Frame (is_admin_method crates J host request.method) _ _ handle_admin-Frame
        (elim (Option-cases (by_reading crates J host request core)) [
          | inl other ↦ rw other by_method-Frame
          | inr (response, read) ↦ rw read same-Frame
        ])
