-- ===== src/Remote/LocalAdmin/Answers.antt =====
-- Every request of the local administrator is answered under its own id.
use webadbcontrol.Base.{refl, String, ◌==◌, Bool, true, false, not, ◌&&◌, if◌then◌else◌, arith}
use webadbcontrol.Base.Text.{contains}
use webadbcontrol.Error.{Result, ok, err}
use webadbcontrol.Ipc.{IpcRequest, IpcJson, Response}
use webadbcontrol.Ipc.Responses.{Answers}
use webadbcontrol.Remote.Accounts.{AuthenticatedSession, Crates}
use webadbcontrol.Remote.Storage.{Manager}
use webadbcontrol.Remote.LocalAdmin.{
  Turn, always_open, checked, inspect_remote_session, admin_login, authenticate_admin,
  admin_change_password, list_users, local_create_user, local_delete_user, local_reset_password,
  local_assign_device, managed, with_admin, local_handle_request,
}

module _ (crates : Crates) (J : IpcJson) (turn : Turn) (request : IpcRequest J.Value) where
  inspect_remote_session-Answers :
      (m : Manager) → Answers request.id (inspect_remote_session crates J turn request m).0
  unfolding inspect_remote_session
  inspect_remote_session-Answers m = ground arith

  admin_login-Answers : (m : Manager) → Answers request.id (admin_login crates J turn request m).0
  unfolding admin_login
  admin_login-Answers m = ground arith

  local_create_user-Answers :
      (m : Manager) → Answers request.id (local_create_user crates J turn request m).0
  unfolding local_create_user
  local_create_user-Answers m = ground arith

  local_delete_user-Answers :
      (m : Manager) → Answers request.id (local_delete_user crates J turn request m).0
  unfolding local_delete_user
  local_delete_user-Answers m = ground arith

  local_reset_password-Answers :
      (m : Manager) → Answers request.id (local_reset_password crates J turn request m).0
  unfolding local_reset_password
  local_reset_password-Answers m = ground arith

  local_assign_device-Answers :
      (m : Manager) → Answers request.id (local_assign_device crates J turn request m).0
  unfolding local_assign_device
  local_assign_device-Answers m = ground arith

  admin_change_password-Answers :
      (token : String) (m : Manager)
      → Answers request.id (admin_change_password crates J turn request token m).0
  unfolding admin_change_password
  admin_change_password-Answers token m = ground arith

  list_users-Answers : (m : Manager) → Answers request.id (list_users crates J request.id m).0
  unfolding list_users
  list_users-Answers m = ground arith

  either-Answers :
      (b : Bool) (x y : Response J × Manager)
      → Answers request.id x.0
      → Answers request.id y.0
      → Answers request.id (if b then x else y).0
  either-Answers true x y ax ay = ax
  either-Answers false x y ax ay = ay

  managed-Answers :
      (session : AuthenticatedSession) (m : Manager)
      → Answers request.id (managed crates J turn request session m).0
  unfolding managed
  managed-Answers session m =
      (either-Answers (request.method == "remote.admin.me") _ _ (refl, refl)
        (either-Answers (request.method == "remote.admin.logout") _ _ (refl, refl)
          (either-Answers (request.method == "remote.admin.changePassword") _ _
            (admin_change_password-Answers session.token m)
            (either-Answers (request.method == "remote.admin.users.list") _ _ (list_users-Answers m)
              (either-Answers (request.method == "remote.admin.users.create") _ _
                (local_create_user-Answers m)
                (either-Answers (request.method == "remote.admin.users.delete") _ _
                  (local_delete_user-Answers m)
                  (either-Answers (request.method == "remote.admin.users.resetPassword") _ _
                    (local_reset_password-Answers m)
                    (either-Answers (request.method == "remote.admin.devices.assign") _ _
                      (local_assign_device-Answers m) (refl, refl)))))))))

  checked-Answers {ℓ} :
      {A : Type ℓ} (r : Result A) (m : Manager) (rest : A → Response J × Manager)
      → ((a : A) → Answers request.id (rest a).0)
      → Answers request.id (checked crates J request.id r m rest).0
  checked-Answers (err e) m rest goes = (refl, refl)
  checked-Answers (ok a) m rest goes = goes a

  with_admin-Answers : (m : Manager) → Answers request.id (with_admin crates J turn request m).0
  unfolding with_admin
  with_admin-Answers m =
      let (found, alive) = authenticate_admin crates J turn.now request.params m in
      checked-Answers found alive _ (λ session.
        either-Answers
          (session.password_change_required && not (contains request.method always_open)) _ _
          (refl, refl) (managed-Answers session alive))

  pub local_handle_request-Answers :
      (m : Manager) → Answers request.id (local_handle_request crates J turn request m).0
  unfolding local_handle_request
  local_handle_request-Answers m =
      either-Answers (request.method == "remote.internal.session.inspect") _ _
        (inspect_remote_session-Answers m)
        (either-Answers (request.method == "remote.admin.login") _ _ (admin_login-Answers m)
          (with_admin-Answers m))
