-- ===== src/Remote/History.antt =====
-- Everything that reaches the account manager: requests of remote users, and of the local
-- administrator.
use webadbcontrol.Base.{◌≡◌, String, Bool, true, List, [], ◌∷◌}
use webadbcontrol.Ipc.{IpcRequest, IpcJson}
use webadbcontrol.Remote.Accounts.{Crates}
use webadbcontrol.Remote.Storage.{Manager}
use webadbcontrol.Remote.Auth.Served.{Served, idle, trans}
use webadbcontrol.Remote.Authorize.{RemoteRequest}
use webadbcontrol.Remote.LocalAdmin.{Turn, local_handle_request}
use webadbcontrol.Remote.LocalAdmin.Calls.{local_handle_request-Served}
use webadbcontrol.Remote.Service.{RemoteParams, Inputs, handle_request}
use webadbcontrol.Remote.Service.Served.{handle_request-Served}

pub data Arrival (Remote Local : Type 0) : Type 0 where
  remote : Inputs → RemoteRequest Remote → Arrival Remote Local
  local : Turn → IpcRequest Local → Arrival Remote Local

module _ (crates : Crates) (P : RemoteParams) (J : IpcJson) where
  unfoldable pub serve : Manager → List (Arrival P.Value J.Value) → Manager
  serve m [] = m
  serve m (remote inputs request ∷ arrivals) =
      serve (handle_request crates P inputs request m).1 arrivals
  serve m (local turn request ∷ arrivals) =
      serve (local_handle_request crates J turn request m).1 arrivals

  -- A token that a request of the local administrator draws is one of `admin_token`.
  abbrev pub DrawsTokens : (String → Bool) → List (Arrival P.Value J.Value) → Type 0
  DrawsTokens admin_token [] = Unit
  DrawsTokens admin_token (remote inputs request ∷ arrivals) = DrawsTokens admin_token arrivals
  DrawsTokens admin_token (local turn request ∷ arrivals) =
      (admin_token turn.fresh_token ≡ true) × DrawsTokens admin_token arrivals

  pub serve-Served :
      (admin_token : String → Bool) (m : Manager) (arrivals : List (Arrival P.Value J.Value))
      → DrawsTokens admin_token arrivals
      → Served admin_token crates m (serve m arrivals)
  unfolding serve
  serve-Served admin_token m [] o = idle admin_token crates m
  serve-Served admin_token m (remote inputs request ∷ arrivals) o =
      let next = (handle_request crates P inputs request m).1 in
      trans admin_token crates m next (serve next arrivals)
        (handle_request-Served admin_token crates P inputs request m)
        (serve-Served admin_token next arrivals o)
  serve-Served admin_token m (local turn request ∷ arrivals) (drawn, os) =
      let next = (local_handle_request crates J turn request m).1 in
      trans admin_token crates m next (serve next arrivals)
        (local_handle_request-Served admin_token crates J turn request m drawn)
        (serve-Served admin_token next arrivals os)
