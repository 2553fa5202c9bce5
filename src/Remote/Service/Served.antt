-- ===== src/Remote/Service/Served.antt =====
-- What a remote request does to the account manager, as calls of the manager's methods.
use webadbcontrol.Base.{
  ◌≡◌, refl, String, ◌==◌, Bool, true, false, not, ◌&&◌, Option, none, some, if◌then◌else◌, inl,
  inr, ◌⊎◌, Bool-cases,
}
use webadbcontrol.Base.Text.{contains}
use webadbcontrol.Error.{Result, ok, err, Result-cases}
use webadbcontrol.Remote.Accounts.{AuthenticatedSession, Crates, default_admin_username}
use webadbcontrol.Remote.Storage.{Manager}
use webadbcontrol.Remote.Auth.{
  login, authenticate, create_user, delete_user, change_own_password, reset_password,
  set_device_access,
}
use webadbcontrol.Remote.Auth.Log.{
  logins, authenticates, logouts, creates, deletes, changes, resets, assigns, step,
}
use webadbcontrol.Remote.Authorize.{RemoteRequest, require_admin}
use webadbcontrol.Remote.Service.{
  RemoteParams, Inputs, Answer, answered, with_params, as_admin, remote_login, change_password,
  admin_create_user, admin_delete_user, admin_reset_password, admin_assign_device, by_method,
  given_token, with_token, always_allowed, handle_request,
}
use webadbcontrol.Remote.Auth.Served.{Served, idle, one, first}

module _ (admin_token : String → Bool) (crates : Crates) (P : RemoteParams) where
  answered_state :
      {A : Type 0} (f : A → Answer P.Value) (r : Result A × Manager)
      → (answered crates P f r).1 ≡ r.1
  answered_state f (ok a, m) = refl
  answered_state f (err e, m) = refl

  answered-Served :
      {A : Type 0} (f : A → Answer P.Value) (m : Manager) (r : Result A × Manager)
      → Served admin_token crates m r.1
      → Served admin_token crates m (answered crates P f r).1
  answered-Served f m r s = rw (answered_state f r) s

  with_params-Served {ℓ} :
      {A : Type ℓ} (r : String ⊎ A) (m : Manager) (f : A → Result (Answer P.Value) × Manager)
      → ((a : A) → Served admin_token crates m (f a).1)
      → Served admin_token crates m (with_params crates P r m f).1
  with_params-Served (inl cause) m f s = idle admin_token crates m
  with_params-Served (inr a) m f s = s a

  as_admin-Served :
      (session : AuthenticatedSession) (m : Manager) (o : Result (Answer P.Value) × Manager)
      → Served admin_token crates m o.1
      → Served admin_token crates m (as_admin crates P session m o).1
  as_admin-Served session m o s = elim (Result-cases (require_admin session)) [
    | inr (e, bad) ↦ rw (bad, as_admin) (idle admin_token crates m)
    | inl (_, good) ↦ rw (good, as_admin) s
  ]

  module _ (inputs : Inputs) (request : RemoteRequest P.Value) where
    remote_login-Served :
        (m : Manager) → Served admin_token crates m (remote_login crates P inputs request m).1
    unfolding remote_login step
    remote_login-Served m = with_params-Served (P.login_params request.params) m _ (λ (u, p).
        elim (Bool-cases (u == default_admin_username)) [
          | inl admin_name ↦ rw admin_name (idle admin_token crates m)
          | inr other ↦ rw other (
              answered-Served _ m (login crates u p inputs.fresh_token inputs.now m)
                (one admin_token crates m (logins u p inputs.fresh_token inputs.now) (inl other)))
        ])

    change_password-Served :
        (session : AuthenticatedSession) (m : Manager)
        → Served admin_token crates m (change_password crates P inputs request session m).1
    unfolding change_password step
    change_password-Served session m =
        with_params-Served (P.password_params request.params) m _ (λ (c, n).
          answered-Served _ m
            (change_own_password crates session.username c n inputs.salt_bits inputs.disk m)
            (one admin_token crates m (changes session.username c n inputs.salt_bits inputs.disk)
              tt))

    admin_create_user-Served :
        (m : Manager) → Served admin_token crates m (admin_create_user crates P inputs request m).1
    unfolding admin_create_user step
    admin_create_user-Served m = with_params-Served (P.create_params request.params) m _ (λ (u, p).
        answered-Served _ m (create_user crates u p inputs.salt_bits inputs.disk m)
          (one admin_token crates m (creates u p inputs.salt_bits inputs.disk) tt))

    admin_delete_user-Served :
        (m : Manager) → Served admin_token crates m (admin_delete_user crates P inputs request m).1
    unfolding admin_delete_user step
    admin_delete_user-Served m = with_params-Served (P.delete_params request.params) m _ (λ u.
        answered-Served _ m (delete_user crates u inputs.disk m)
          (one admin_token crates m (deletes u inputs.disk) tt))

    admin_reset_password-Served :
        (m : Manager)
        → Served admin_token crates m (admin_reset_password crates P inputs request m).1
    unfolding admin_reset_password step
    admin_reset_password-Served m =
        with_params-Served (P.reset_params request.params) m _ (λ (u, p).
          answered-Served _ m (reset_password crates u p inputs.salt_bits inputs.disk m)
            (one admin_token crates m (resets u p inputs.salt_bits inputs.disk) tt))

    admin_assign_device-Served :
        (m : Manager)
        → Served admin_token crates m (admin_assign_device crates P inputs request m).1
    unfolding admin_assign_device step
    admin_assign_device-Served m =
        with_params-Served (P.assign_params request.params) m _ (λ (u, d, b).
          elim (Bool-cases (b && not (inputs.core_has_device d))) [
            | inl unknown ↦ rw unknown (idle admin_token crates m)
            | inr known ↦ rw known (
                answered-Served _ m (set_device_access crates u d b inputs.disk m)
                  (one admin_token crates m (assigns u d b inputs.disk) tt))
          ])

    either_way :
        (b : Bool) (m : Manager) (x y : Result (Answer P.Value) × Manager)
        → Served admin_token crates m x.1
        → Served admin_token crates m y.1
        → Served admin_token crates m (if b then x else y).1
    either_way true m x y sx sy = sx
    either_way false m x y sx sy = sy

    by_method-Served :
        (token : String) (session : AuthenticatedSession) (m : Manager)
        → Served admin_token crates m (by_method crates P inputs request token session m).1
    unfolding by_method step
    by_method-Served token session m =
        either_way (request.method == "auth.me") m _ _ (idle admin_token crates m) (
          either_way (request.method == "auth.logout") m _ _
            (one admin_token crates m (logouts token) tt)
            (either_way (request.method == "auth.changePassword") m _ _
              (change_password-Served session m)
              (either_way (request.method == "diagnostics.report") m _ _ (idle admin_token crates m)
                (either_way (request.method == "admin.users.list") m _ _
                  (as_admin-Served session m _ (idle admin_token crates m))
                  (either_way (request.method == "admin.users.create") m _ _
                    (as_admin-Served session m _ (admin_create_user-Served m))
                    (either_way (request.method == "admin.users.delete") m _ _
                      (as_admin-Served session m _ (admin_delete_user-Served m))
                      (either_way (request.method == "admin.users.resetPassword") m _ _
                        (as_admin-Served session m _ (admin_reset_password-Served m))
                        (either_way (request.method == "admin.devices.assign") m _ _
                          (as_admin-Served session m _ (admin_assign_device-Served m))
                          (idle admin_token crates m)))))))))

    with_token-Served :
        (token : Option String) (m : Manager)
        → Served admin_token crates m (with_token crates P inputs request token m).1
    unfolding with_token step
    with_token-Served none m = idle admin_token crates m
    with_token-Served (some token) m =
        let alive = step crates m (authenticates token inputs.now) in
        let looked = one admin_token crates m (authenticates token inputs.now) tt in
        elim (Result-cases (authenticate token inputs.now m).0) [
          | inr (e, bad) ↦ rw (bad, with_token) looked
          | inl (session, good) ↦
              elim (Bool-cases (
                session.password_change_required && not (contains request.method always_allowed))) [
                  | inl must ↦ rw (good, must, with_token) looked
                  | inr free ↦
                      rw (good, free, with_token)
                        (first admin_token crates m _ (authenticates token inputs.now) tt
                          (by_method-Served token session alive))
                ]
        ]

    pub handle_request-Served :
        (m : Manager) → Served admin_token crates m (handle_request crates P inputs request m).1
    unfolding handle_request
    handle_request-Served m =
        either_way (request.method == "auth.login") m _ _ (remote_login-Served m)
          (with_token-Served (given_token crates P request.session_token) m)
