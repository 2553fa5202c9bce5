-- ===== src/Remote/LocalAdmin/Guard.antt =====
-- Who may manage the accounts through the local interface.
use webadbcontrol.Base.{◌≡◌, String, true, false, inr, ◌⊎◌}
use webadbcontrol.Base.Text.{contains}
use webadbcontrol.Error.{ok}
use webadbcontrol.Ipc.{IpcRequest, IpcJson, Response}
use webadbcontrol.Remote.Accounts.{admin, AuthenticatedSession, Crates, default_admin_username}
use webadbcontrol.Remote.Storage.{Manager}
use webadbcontrol.Remote.Auth.{authenticate}
use webadbcontrol.Remote.LocalAdmin.{Turn, always_open}

module _ (crates : Crates) (J : IpcJson) (turn : Turn) (request : IpcRequest J.Value)
    (m : Manager) where
  -- The request carries the token of a live session of the built-in administrator, whose password
  -- need not be changed first.
  pub record Admitted : Type 0 where
    pub token : String
    pub session : AuthenticatedSession
    pub given : J.admin_session_params request.params ≡ inr token
    pub live : (authenticate token turn.now m).0 ≡ ok session
    pub has_role : session.role ≡ admin
    pub is_builtin : session.username ≡ default_admin_username
    pub free :
        (session.password_change_required ≡ false) ⊎ (contains request.method always_open ≡ true)

  abbrev pub Unchanged : Response J × Manager → Type 0
  Unchanged o = o.1.database ≡ m.database

  abbrev pub Refused : Response J × Manager → Type 0
  Refused o = (o.0.ok ≡ false) × Unchanged o
