-- ===== src/Remote/Service/Forwarding.antt =====
-- Which requests leave the service, to Core or to the diagnostics.
use webadbcontrol.Base.{
  ◌≡◌, refl, ap, sym, ◌∙◌, String, ◌==◌, Bool, true, false, not, ◌&&◌, Option, none, some,
  if◌then◌else◌, arith, inl, inr, ◌⊎◌, Bool-cases, Option-cases, eq_iff,
}
use webadbcontrol.Base.Text.{contains}
use webadbcontrol.Error.{Result, ok, err, Result-cases}
use webadbcontrol.Remote.Accounts.{AuthenticatedSession, Crates, default_admin_username}
use webadbcontrol.Remote.Storage.{Manager}
use webadbcontrol.Remote.Auth.{login, authenticate, change_own_password}
use webadbcontrol.Remote.Authorize.{RemoteRequest}
use webadbcontrol.Remote.Service.{
  RemoteParams, Inputs, Answer, diagnostics, forwarded, answered, with_params, remote_login,
  change_password, by_method, given_token, with_token, always_allowed, handle_request,
}

-- The request goes on, and not to the account manager.
abbrev pub passed_on : {Value : Type 0} → Result (Answer Value) → Bool
passed_on (ok (diagnostics session request)) = true
passed_on (ok (forwarded session request)) = true
passed_on _ = false

module _ (crates : Crates) (P : RemoteParams) where
  abbrev Stays : Result (Answer P.Value) × Manager → Type 0
  Stays o = passed_on o.0 ≡ false

  answered-Stays :
      {A : Type 0} (f : A → Answer P.Value) (r : Result A × Manager)
      → ((a : A) → passed_on (ok (f a)) ≡ false)
      → Stays (answered crates P f r)
  answered-Stays f (ok a, m) s = s a
  answered-Stays f (err e, m) s = refl

  with_params-Stays {ℓ} :
      {A : Type ℓ} (r : String ⊎ A) (m : Manager) (f : A → Result (Answer P.Value) × Manager)
      → ((a : A) → Stays (f a))
      → Stays (with_params crates P r m f)
  with_params-Stays (inl cause) m f s = refl
  with_params-Stays (inr a) m f s = s a

  either-Stays :
      (b : Bool) (x y : Result (Answer P.Value) × Manager)
      → Stays x
      → Stays y
      → Stays (if b then x else y)
  either-Stays true x y sx sy = sx
  either-Stays false x y sx sy = sy

  module _ (inputs : Inputs) (request : RemoteRequest P.Value) (m : Manager) where
    remote_login-Stays : Stays (remote_login crates P inputs request m)
    unfolding remote_login
    remote_login-Stays = with_params-Stays (P.login_params request.params) m _ (λ (u, p).
        either-Stays (u == default_admin_username) _ _ refl
          (answered-Stays _ (login crates u p inputs.fresh_token inputs.now m) (λ a. refl)))

    change_password-Stays :
        (session : AuthenticatedSession) → Stays (change_password crates P inputs request session m)
    unfolding change_password
    change_password-Stays session =
        with_params-Stays (P.password_params request.params) m _ (λ (c, n).
          answered-Stays {A = Unit {0}} _
            (change_own_password crates session.username c n inputs.salt_bits inputs.disk m)
            (λ a. refl))

    apart : (name : String) → (request.method == name) ≡ false → (name == request.method) ≡ false
    apart name differs = elim (Bool-cases (name == request.method)) [
      | inr other ↦ other
      | inl same ↦ absurd (ground (arith, eq_iff name request.method, eq_iff request.method name))
    ]

    by_method-Stays :
        (token : String) (session : AuthenticatedSession)
        → contains request.method always_allowed ≡ true
        → Stays (by_method crates P inputs request token session m)
    unfolding by_method
    by_method-Stays token session allowed = elim (Bool-cases (request.method == "auth.me")) [
      | inl a ↦ rw a refl
      | inr na ↦ elim (Bool-cases (request.method == "auth.logout")) [
        | inl b ↦ rw (na, b) refl
        | inr nb ↦ elim (Bool-cases (request.method == "auth.changePassword")) [
          | inl c ↦ rw (na, nb, c) (change_password-Stays session)
          | inr nc ↦
              let me = apart "auth.me" na in
              let leaves = apart "auth.logout" nb in
              let changes = apart "auth.changePassword" nc in absurd (ground arith)
        ]
      ]
    ]

  given_token-eq :
      (given : Option String) (t : String) → given_token crates P given ≡ some t → given ≡ some t
  given_token-eq none t h = absurd (ground arith)
  given_token-eq (some token) t h = elim (Bool-cases (token == "")) [
    | inl empty ↦ absurd (ground arith)
    | inr other ↦ ground arith
  ]

  clashes : {b : Bool} → b ≡ true → ¬ (b ≡ false)
  clashes t f = absurd (ground arith)

  with_token-passed_on :
      (inputs : Inputs) (request : RemoteRequest P.Value) (token : String) (m : Manager)
      → passed_on (with_token crates P inputs request (some token) m).0 ≡ true
      → (session : AuthenticatedSession) × ((authenticate token inputs.now m).0 ≡ ok session)
        × (session.password_change_required ≡ false)
  unfolding with_token
  with_token-passed_on inputs request token m h =
      let alive = (authenticate token inputs.now m).1 in
      elim (Result-cases (authenticate token inputs.now m).0) [
        | inr (e, bad) ↦ absurd (clashes h (rw (bad, with_token) refl))
        | inl (session, good) ↦ elim (Bool-cases session.password_change_required) [
          | inr free ↦ (session, good, free)
          | inl must ↦ elim (Bool-cases (contains request.method always_allowed)) [
            | inr other ↦
                let gate : session.password_change_required
                      && not (contains request.method always_allowed)
                    ≡ true =
                  ground arith in
                absurd (clashes h (rw (good, gate, with_token) refl))
            | inl allowed ↦
                let gate : session.password_change_required
                      && not (contains request.method always_allowed)
                    ≡ false =
                  ground arith in
                absurd (
                  clashes h (
                    rw (good, gate, with_token)
                      (by_method-Stays inputs request alive token session allowed)))
          ]
        ]
      ]

  -- A request that goes on to Core or to the diagnostics carries the token of a live session, whose
  -- account has no password change outstanding.
  pub handle_request-passed_on :
      (inputs : Inputs) (request : RemoteRequest P.Value) (m : Manager)
      → passed_on (handle_request crates P inputs request m).0 ≡ true
      → (token : String) × (session : AuthenticatedSession) × (request.session_token ≡ some token)
        × ((authenticate token inputs.now m).0 ≡ ok session)
        × (session.password_change_required ≡ false)
  unfolding handle_request with_token
  handle_request-passed_on inputs request m h = elim (Bool-cases (request.method == "auth.login")) [
    | inl logs_in ↦
        absurd (clashes h (rw (logs_in, handle_request) (remote_login-Stays inputs request m)))
    | inr other ↦
        let same : handle_request crates P inputs request m
            ≡ with_token crates P inputs request (given_token crates P request.session_token) m =
          rw (other, handle_request) refl in
        elim (Option-cases (given_token crates P request.session_token)) [
          | inl missing ↦ absurd (clashes h (rw (same, missing, with_token) refl))
          | inr (token, given) ↦
              let (session, good, free) = with_token-passed_on inputs request token m (
                sym (
                  ap (λ o. passed_on o.0)
                    (same ∙ ap (λ g. with_token crates P inputs request g m) given))
                ∙ h) in
              (token, session, given_token-eq request.session_token token given, good, free)
        ]
  ]
