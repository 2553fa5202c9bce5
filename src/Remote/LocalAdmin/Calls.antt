-- ===== src/Remote/LocalAdmin/Calls.antt =====
-- What a request of the local administrator does to the account manager, as calls of its methods.
use webadbcontrol.Base.{◌≡◌, String, ◌==◌, Bool, true, false, not, ◌&&◌, if◌then◌else◌, inl, inr}
use webadbcontrol.Base.Text.{contains}
use webadbcontrol.Error.{Result, ok, err, Result-cases}
use webadbcontrol.Ipc.{IpcRequest, IpcJson, Response}
use webadbcontrol.Remote.Accounts.{AuthenticatedSession, Crates, default_admin_username}
use webadbcontrol.Remote.Storage.{Manager}
use webadbcontrol.Remote.Auth.{
  login, authenticate, create_user, delete_user, change_own_password, reset_password,
  set_device_access,
}
use webadbcontrol.Remote.Auth.Log.{
  logins, authenticates, logouts, creates, deletes, changes, resets, assigns, step,
}
use webadbcontrol.Remote.Auth.Served.{Served, idle, one, first, trans}
use webadbcontrol.Remote.LocalAdmin.{
  Turn, parse_params, require_remote_user, always_open, checked, answered, inspect_remote_session,
  admin_login, authenticate_admin, admin_change_password, list_users, local_create_user,
  local_delete_user, local_reset_password, local_assign_device, managed, with_admin,
  local_handle_request,
}

module _ (admin_token : String → Bool) (crates : Crates) (J : IpcJson) where
  checked-Served {ℓ} :
      {A : Type ℓ} (id : String) (r : Result A) (m n : Manager) (rest : A → Response J × Manager)
      → Served admin_token crates m n
      → ((a : A) → Served admin_token crates m (rest a).1)
      → Served admin_token crates m (checked crates J id r n rest).1
  checked-Served id (err e) m n rest stays goes = stays
  checked-Served id (ok a) m n rest stays goes = goes a

  answered-Served {ℓ} :
      {A : Type ℓ} (id : String) (respond : A → Response J) (r : Result A × Manager) (m : Manager)
      → Served admin_token crates m r.1
      → Served admin_token crates m (answered crates J id respond r).1
  answered-Served id respond (ok a, n) m s = s
  answered-Served id respond (err e, n) m s = s

  either_way :
      (b : Bool) (m : Manager) (x y : Response J × Manager)
      → Served admin_token crates m x.1
      → Served admin_token crates m y.1
      → Served admin_token crates m (if b then x else y).1
  either_way true m x y sx sy = sx
  either_way false m x y sx sy = sy

  module _ (turn : Turn) (request : IpcRequest J.Value) where
    stays : (m : Manager) → Served admin_token crates m m
    stays m = idle admin_token crates m

    inspect_remote_session-Served :
        (m : Manager)
        → Served admin_token crates m (inspect_remote_session crates J turn request m).1
    unfolding inspect_remote_session step
    inspect_remote_session-Served m =
        checked-Served request.id (parse_params (J.inspect_params request.params)) m m _ (stays m)
          (λ token.
            answered-Served request.id _ (authenticate token turn.now m) m
              (one admin_token crates m (authenticates token turn.now) tt))

    admin_login-Served :
        (m : Manager)
        → admin_token turn.fresh_token ≡ true
        → Served admin_token crates m (admin_login crates J turn request m).1
    unfolding admin_login step
    admin_login-Served m drawn =
        checked-Served request.id (parse_params (J.admin_login_params request.params)) m m _
          (stays m)
          (λ password.
            answered-Served request.id _
              (login crates default_admin_username password turn.fresh_token turn.now m) m
              (one admin_token crates m
                (logins default_admin_username password turn.fresh_token turn.now) (inr drawn)))

    admin_change_password-Served :
        (token : String) (m : Manager)
        → Served admin_token crates m (admin_change_password crates J turn request token m).1
    unfolding admin_change_password step
    admin_change_password-Served token m =
        checked-Served request.id (parse_params (J.admin_password_params request.params)) m m _
          (stays m)
          (λ (current, replacement).
            let alive = step crates m (authenticates token turn.later) in
            checked-Served request.id (authenticate token turn.later m).0 m alive _
              (one admin_token crates m (authenticates token turn.later) tt)
              (λ session.
                answered-Served {A = Unit {0}} request.id _
                  (change_own_password crates session.username current replacement turn.salt_bits
                    turn.disk alive)
                  m
                  (first admin_token crates m _ (authenticates token turn.later) tt (
                    one admin_token crates alive
                      (changes session.username current replacement turn.salt_bits turn.disk) tt))))

    local_create_user-Served :
        (m : Manager) → Served admin_token crates m (local_create_user crates J turn request m).1
    unfolding local_create_user step
    local_create_user-Served m =
        checked-Served request.id (parse_params (J.admin_create_params request.params)) m m _
          (stays m)
          (λ (u, p).
            answered-Served request.id _ (create_user crates u p turn.salt_bits turn.disk m) m
              (one admin_token crates m (creates u p turn.salt_bits turn.disk) tt))

    local_delete_user-Served :
        (m : Manager) → Served admin_token crates m (local_delete_user crates J turn request m).1
    unfolding local_delete_user step
    local_delete_user-Served m =
        checked-Served request.id (parse_params (J.admin_delete_params request.params)) m m _
          (stays m)
          (λ u. checked-Served request.id (require_remote_user u) m m _ (stays m) (λ _.
            answered-Served {A = Unit {0}} request.id _ (delete_user crates u turn.disk m) m
              (one admin_token crates m (deletes u turn.disk) tt)))

    local_reset_password-Served :
        (m : Manager) → Served admin_token crates m (local_reset_password crates J turn request m).1
    unfolding local_reset_password step
    local_reset_password-Served m =
        checked-Served request.id (parse_params (J.admin_reset_params request.params)) m m _
          (stays m)
          (λ (u, p). checked-Served request.id (require_remote_user u) m m _ (stays m) (λ _.
            answered-Served {A = Unit {0}} request.id _
              (reset_password crates u p turn.salt_bits turn.disk m) m
              (one admin_token crates m (resets u p turn.salt_bits turn.disk) tt)))

    local_assign_device-Served :
        (m : Manager) → Served admin_token crates m (local_assign_device crates J turn request m).1
    unfolding local_assign_device step
    local_assign_device-Served m =
        checked-Served request.id (parse_params (J.admin_assign_params request.params)) m m _
          (stays m)
          (λ (u, d, b). checked-Served request.id (require_remote_user u) m m _ (stays m) (λ _.
            answered-Served request.id _ (set_device_access crates u d b turn.disk m) m
              (one admin_token crates m (assigns u d b turn.disk) tt)))

    managed-Served :
        (session : AuthenticatedSession) (m : Manager)
        → Served admin_token crates m (managed crates J turn request session m).1
    unfolding managed list_users step
    managed-Served session m = either_way (request.method == "remote.admin.me") m _ _ (stays m) (
        either_way (request.method == "remote.admin.logout") m _ _
          (one admin_token crates m (logouts session.token) tt)
          (either_way (request.method == "remote.admin.changePassword") m _ _
            (admin_change_password-Served session.token m)
            (either_way (request.method == "remote.admin.users.list") m _ _ (stays m) (
              either_way (request.method == "remote.admin.users.create") m _ _
                (local_create_user-Served m)
                (either_way (request.method == "remote.admin.users.delete") m _ _
                  (local_delete_user-Served m)
                  (either_way (request.method == "remote.admin.users.resetPassword") m _ _
                    (local_reset_password-Served m)
                    (either_way (request.method == "remote.admin.devices.assign") m _ _
                      (local_assign_device-Served m) (stays m))))))))

    authenticate_admin-Served :
        (m : Manager)
        → Served admin_token crates m (authenticate_admin crates J turn.now request.params m).1
    unfolding authenticate_admin step
    authenticate_admin-Served m =
        elim (Result-cases (parse_params (J.admin_session_params request.params))) [
          | inr (e, bad) ↦ rw (bad, authenticate_admin) (stays m)
          | inl (token, given) ↦
              rw (given, authenticate_admin)
                (one admin_token crates m (authenticates token turn.now) tt)
        ]

    with_admin-Served :
        (m : Manager) → Served admin_token crates m (with_admin crates J turn request m).1
    unfolding with_admin
    with_admin-Served m =
        let (found, alive) = authenticate_admin crates J turn.now request.params m in
        let looked = authenticate_admin-Served m in
        checked-Served request.id found m alive _ looked (λ session.
          either_way (session.password_change_required && not (contains request.method always_open))
            m _ _ looked (trans admin_token crates m alive _ looked (managed-Served session alive)))

    pub local_handle_request-Served :
        (m : Manager)
        → admin_token turn.fresh_token ≡ true
        → Served admin_token crates m (local_handle_request crates J turn request m).1
    unfolding local_handle_request
    local_handle_request-Served m drawn =
        either_way (request.method == "remote.internal.session.inspect") m _ _
          (inspect_remote_session-Served m)
          (either_way (request.method == "remote.admin.login") m _ _ (admin_login-Served m drawn)
            (with_admin-Served m))
