-- ===== src/Remote/Service/Admission.antt =====
-- What remote requests can reach: an administrator's method only with an administrator's token.
use webadbcontrol.Base.{
  ℕ, ◌≡◌, refl, ap, sym, ◌∙◌, String, ◌==◌, Bool, true, false, not, ◌&&◌, Option, none, some, List,
  [], ◌∷◌, arith, inl, inr, ◌⊎◌, Bool-cases, eq_iff,
}
use webadbcontrol.Base.Text.{contains}
use webadbcontrol.Error.{AppError, Result, ok, err, Result-cases}
use webadbcontrol.Remote.Accounts.{user, AuthenticatedSession, Crates}
use webadbcontrol.Remote.Storage.{Manager, WriteDisk, absent, load_or_initialize_with_session_ttl}
use webadbcontrol.Remote.Auth.{authenticate}
use webadbcontrol.Remote.Auth.Ordinary.{authenticate-ordinary}
use webadbcontrol.Remote.Authorize.{RemoteRequest, require_admin, permission_denied}
use webadbcontrol.Remote.Service.{
  RemoteParams, Inputs, Answer, as_admin, by_method, given_token, with_token, auth_required,
  password_change_required_error, always_allowed, handle_request,
}
use webadbcontrol.Ipc.{IpcJson}
use webadbcontrol.Remote.Auth.Served.{Served}
use webadbcontrol.Remote.History.{Arrival, serve, DrawsTokens, serve-Served}

abbrev pub admin_methods : List String
admin_methods =
    "admin.users.list" ∷ "admin.users.create" ∷ "admin.users.delete" ∷ "admin.users.resetPassword"
    ∷ "admin.devices.assign" ∷ []

admin_methods-cases :
    (method : String)
    → contains method admin_methods ≡ true
    → (method ≡ "admin.users.list")
      ⊎ (method ≡ "admin.users.create")
      ⊎ (method ≡ "admin.users.delete")
      ⊎ (method ≡ "admin.users.resetPassword")
      ⊎ (method ≡ "admin.devices.assign")
admin_methods-cases method listed = elim (Bool-cases ("admin.users.list" == method)) [
  | inl a ↦ inl (sym ((eq_iff _ _).0 a))
  | inr na ↦ elim (Bool-cases ("admin.users.create" == method)) [
    | inl b ↦ inr (inl (sym ((eq_iff _ _).0 b)))
    | inr nb ↦ elim (Bool-cases ("admin.users.delete" == method)) [
      | inl c ↦ inr (inr (inl (sym ((eq_iff _ _).0 c))))
      | inr nc ↦ elim (Bool-cases ("admin.users.resetPassword" == method)) [
        | inl d ↦ inr (inr (inr (inl (sym ((eq_iff _ _).0 d)))))
        | inr nd ↦ elim (Bool-cases ("admin.devices.assign" == method)) [
          | inl e ↦ inr (inr (inr (inr (sym ((eq_iff _ _).0 e)))))
          | inr ne ↦ absurd (ground arith)
        ]
      ]
    ]
  ]
]

not_login :
    (method : String) → contains method admin_methods ≡ true → (method == "auth.login") ≡ false
not_login method listed = elim (admin_methods-cases method listed) [
  | inl is ↦ rw is refl
  | inr (inl is) ↦ rw is refl
  | inr (inr (inl is)) ↦ rw is refl
  | inr (inr (inr (inl is))) ↦ rw is refl
  | inr (inr (inr (inr is))) ↦ rw is refl
]

user-denied :
    (session : AuthenticatedSession)
    → session.role ≡ user
    → require_admin session ≡ err permission_denied
unfolding require_admin
user-denied session role = rw role refl

abbrev any_token : (String → Bool) → Option String → Bool
any_token p none = false
any_token p (some token) = p token

module _ (crates : Crates) (P : RemoteParams) where
  module _ (inputs : Inputs) (request : RemoteRequest P.Value) where
    as_admin-denied :
        (session : AuthenticatedSession) (m : Manager) (o : Result (Answer P.Value) × Manager)
        → require_admin session ≡ err permission_denied
        → as_admin crates P session m o ≡ (err permission_denied, m)
    as_admin-denied session m o denied = rw (denied, as_admin) refl

    by_method-denied :
        (token : String) (session : AuthenticatedSession) (m : Manager)
        → contains request.method admin_methods ≡ true
        → require_admin session ≡ err permission_denied
        → by_method crates P inputs request token session m ≡ (err permission_denied, m)
    unfolding by_method
    by_method-denied token session m listed denied =
        elim (admin_methods-cases request.method listed) [
          | inl is ↦ rw is (as_admin-denied session m _ denied)
          | inr (inl is) ↦ rw is (as_admin-denied session m _ denied)
          | inr (inr (inl is)) ↦ rw is (as_admin-denied session m _ denied)
          | inr (inr (inr (inl is))) ↦ rw is (as_admin-denied session m _ denied)
          | inr (inr (inr (inr is))) ↦ rw is (as_admin-denied session m _ denied)
        ]

    with_token-refused :
        (token : Option String) (m : Manager)
        → contains request.method admin_methods ≡ true
        → ((t : String) (now : ℕ) (s : AuthenticatedSession)
            → token ≡ some t
            → (authenticate t now m).0 ≡ ok s
            → s.role ≡ user)
        → ((e : AppError) × ((with_token crates P inputs request token m).0 ≡ err e))
          × ((with_token crates P inputs request token m).1.database ≡ m.database)
    unfolding with_token authenticate
    with_token-refused none m listed users = ((auth_required, refl), refl)
    with_token-refused (some token) m listed users =
        let alive = (authenticate token inputs.now m).1 in
        elim (Result-cases (authenticate token inputs.now m).0) [
          | inr (e, bad) ↦ rw (bad, with_token) ((e, refl), refl)
          | inl (session, good) ↦
              elim (Bool-cases (
                session.password_change_required && not (contains request.method always_allowed))) [
                  | inl must ↦
                      rw (good, must, with_token) ((password_change_required_error, refl), refl)
                  | inr free ↦
                      let denied =
                        by_method-denied token session alive listed
                          (user-denied session (users token inputs.now session refl good)) in
                      rw (good, free, denied, with_token) ((permission_denied, refl), refl)
                ]
        ]

  serve-user :
      (J : IpcJson) (admin_token : String → Bool) (ttl : ℕ) (read : Option String) (w : WriteDisk)
      (salt : ℕ) (m : Manager)
      → load_or_initialize_with_session_ttl crates ttl read w salt absent ≡ ok m
      → (arrivals : List (Arrival P.Value J.Value)) → DrawsTokens crates P J admin_token arrivals
      → (token : String) (now : ℕ) (s : AuthenticatedSession) → admin_token token ≡ false
      → (authenticate token now (serve crates P J m arrivals)).0 ≡ ok s
      → s.role ≡ user
  unfolding Served
  serve-user J admin_token ttl read w salt m start arrivals locals token now s plain h =
      let (calls, os, same) = serve-Served crates P J admin_token m arrivals locals in
      authenticate-ordinary admin_token crates ttl read w salt m start calls os token now s plain
        (ap (λ x. (authenticate token now x).0) (sym same) ∙ h)

  given_token-some :
      (p : String → Bool) (given : Option String) (t : String)
      → any_token p given ≡ false
      → given_token crates P given ≡ some t
      → p t ≡ false
  given_token-some p none t plain h = absurd (ground arith)
  given_token-some p (some token) t plain h = elim (Bool-cases (token == "")) [
    | inl empty ↦ absurd (ground arith)
    | inr other ↦ let same : token ≡ t = ground arith in rw⁻¹ same plain
  ]

  -- From the first start of Core, whatever remote requests and whatever requests of the local
  -- administrator have been made: a remote request for an administrator's method, whose session token
  -- is none of those that requests of the local administrator drew, is answered with an error and leaves the
  -- account database as it is.
  pub handle_request_admin :
      (J : IpcJson) (admin_token : String → Bool) (ttl : ℕ) (read : Option String) (w : WriteDisk)
      (salt : ℕ) (m : Manager)
      → load_or_initialize_with_session_ttl crates ttl read w salt absent ≡ ok m
      → (arrivals : List (Arrival P.Value J.Value)) → DrawsTokens crates P J admin_token arrivals
      → (inputs : Inputs) (request : RemoteRequest P.Value)
      → contains request.method admin_methods ≡ true
      → any_token admin_token request.session_token ≡ false
      → let n = serve crates P J m arrivals in
        ((e : AppError) × ((handle_request crates P inputs request n).0 ≡ err e))
        × ((handle_request crates P inputs request n).1.database ≡ n.database)
  unfolding handle_request
  handle_request_admin J admin_token ttl read w salt m start arrivals locals inputs request listed
        plain =
      let n = serve crates P J m arrivals in
      rw (not_login request.method listed) (
        with_token-refused inputs request (given_token crates P request.session_token) n listed
          (λ t now s given h.
            serve-user J admin_token ttl read w salt m start arrivals locals t now s
              (given_token-some admin_token request.session_token t plain given) h))
