-- ===== src/Ipc/Core/Pace.antt =====
-- The keep-alive thread's interval, whatever a client asks for.
use webadbcontrol.Base.{
  eq_iff, ◌≡◌, String, ◌≤◌, Bool, not, ◌&&◌, Option, none, some, is_some, inl, inr, Bool-cases,
  arith,
}
use webadbcontrol.Error.{Result, ok, err}
use webadbcontrol.Adb.KeepAlive.{
  AdbKeepAliveConfig, AdbKeepAliveStatus, min_interval_secs, configure, validate, apply_configure,
}
use webadbcontrol.Ipc.{IpcRequest, IpcJson, Response, AdbKeepAliveConfigureParams}
use webadbcontrol.Ipc.Host.{CoreService, Host, checked, parse_ipc_params}
use webadbcontrol.Ipc.Core.{
  merged, configured_with, handle_adb_keepalive_configure, by_method, by_reading,
  core_handle_request,
}
use webadbcontrol.Remote.Accounts.{Crates}
use webadbcontrol.Ipc.Core.Frame.{core_handle_request-Frame}

-- A thread that runs has an interval that a handle accepts.
abbrev pub IsPaced : Option AdbKeepAliveStatus → Type 0
IsPaced none = Unit
IsPaced (some status) = min_interval_secs ≤ status.interval_secs

module _ (crates : Crates) (J : IpcJson) (host : Host J.Value) (request : IpcRequest J.Value)
    (core : CoreService) where
  configure-IsPaced :
      (config : AdbKeepAliveConfig) (alive : Bool) (status : AdbKeepAliveStatus)
      → min_interval_secs ≤ status.interval_secs
      → min_interval_secs ≤ (configure config alive status).2.interval_secs
  unfolding configure validate apply_configure
  configure-IsPaced config alive status paced = ground arith

  checked-IsPaced {ℓ} :
      {A : Type ℓ} (after : CoreService) (r : Result A) (rest : A → Response J × CoreService)
      → IsPaced after.keepalive
      → ((a : A) → IsPaced (rest a).1.keepalive)
      → IsPaced (checked host request.id after r rest).1.keepalive
  checked-IsPaced after (err e) rest stays goes = stays
  checked-IsPaced after (ok a) rest stays goes = goes a

  configured_with-IsPaced :
      (params : AdbKeepAliveConfigureParams) (o : Option AdbKeepAliveStatus)
      → IsPaced o
      → IsPaced core.keepalive
      → IsPaced (configured_with crates J host request params o core).1.keepalive
  configured_with-IsPaced params none p paced = paced
  configured_with-IsPaced params (some status) p paced =
      elim (Bool-cases (not (is_some params.enabled) && not (is_some params.interval_secs))) [
        | inl nothing ↦ rw nothing paced
        | inr something ↦
            let (done, _, after) = configure (merged params status) host.thread_alive status in
            let kept = configure-IsPaced (merged params status) host.thread_alive status p in
            rw something (
              checked-IsPaced {A = Unit {0}} (record core { keepalive = some after }) done _ kept
                (λ _. kept))
      ]

  handle_adb_keepalive_configure-IsPaced :
      IsPaced core.keepalive
      → IsPaced (handle_adb_keepalive_configure crates J host request core).1.keepalive
  unfolding handle_adb_keepalive_configure
  handle_adb_keepalive_configure-IsPaced paced =
      checked-IsPaced core
        (parse_ipc_params
          "adb.keepalive.configure params must match { enabled?: boolean, intervalSecs?: number }."
          (J.keepalive_configure_params request.params))
        _ paced (λ params. configured_with-IsPaced params core.keepalive paced paced)

module _ (crates : Crates) (J : IpcJson) (host : Host J.Value) (core : CoreService)
    (paced : IsPaced core.keepalive) where
  configuring-IsPaced :
      (id : String) (params : J.Value)
      → let request : IpcRequest J.Value = record {
        id = id;
        method = "adb.keepalive.configure";
        params = params;
      } in
        IsPaced (core_handle_request crates J host request core).1.keepalive
  unfolding core_handle_request by_reading by_method
  configuring-IsPaced id params =
      handle_adb_keepalive_configure-IsPaced crates J host
        (record { id = id; method = "adb.keepalive.configure"; params = params }) core paced

  at_method-IsPaced :
      (id method : String) (params : J.Value)
      → method ≡ "adb.keepalive.configure"
      → let request : IpcRequest J.Value = record { id = id; method = method; params = params } in
        IsPaced (core_handle_request crates J host request core).1.keepalive
  at_method-IsPaced id method params e = rw e (configuring-IsPaced id params)

-- Whatever request arrives: if the keep-alive thread has an interval of at least five seconds, it
-- still has one afterwards.
pub core_handle_request-IsPaced :
    (crates : Crates) (J : IpcJson) (host : Host J.Value) (request : IpcRequest J.Value)
    (core : CoreService)
    → IsPaced core.keepalive
    → IsPaced (core_handle_request crates J host request core).1.keepalive
core_handle_request-IsPaced crates J host request core paced =
    elim (core_handle_request-Frame crates J host request core).keepalive [
      | inr same ↦ rw same paced
      | inl own ↦
          at_method-IsPaced crates J host core paced request.id request.method request.params
            ((eq_iff request.method "adb.keepalive.configure").0 own)
    ]
