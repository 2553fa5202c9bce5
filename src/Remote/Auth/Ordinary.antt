-- ===== src/Remote/Auth/Ordinary.antt =====
-- Only a token that was drawn for the built-in administrator ever has the administrator's role.
use webadbcontrol.Base.{
  ℕ, ◌+◌, ◌≡◌, ap, ◌∙◌, String, ◌==◌, Bool, true, false, Option, some, List, [], ◌∷◌, arith, inl,
  inr, ◌⊎◌, is_some, Option-cases, Bool-cases, eq_iff,
}
use webadbcontrol.Base.Map.{lookup, insert, retain, lookup-insert, lookup-remove, lookup-retain}
use webadbcontrol.Error.{ok, Result-cases}
use webadbcontrol.Remote.Accounts.{
  user, AuthenticatedSession, StoredAccount, Crates, default_admin_username, public_account,
  session_from_user, hash_password,
}
use webadbcontrol.Remote.Storage.{
  Manager, SessionRecord, WriteDisk, absent, with_users, persisted, default_admin,
  load_or_initialize_with_session_ttl,
}
use webadbcontrol.Remote.Storage.Loading.{first_start}
use webadbcontrol.Remote.Auth.{
  not_of, unexpired, with_sessions, replace_account, drop_account, login, authenticate, logout,
  create_user, delete_user, change_own_password, reset_password, set_device_access, check_login,
  check_new, check_change, check_reset, check_access,
}
use webadbcontrol.Remote.Auth.Log.{
  Call, logins, authenticates, logouts, creates, deletes, changes, resets, assigns, step, run,
}
use webadbcontrol.Remote.Auth.Preserved.{
  check_change-Changed, check_reset-Changed, check_access-Changed,
}
use webadbcontrol.Remote.Auth.Sessions.{authenticate_lem}

module _ (admin_token : String → Bool) where
  -- A login of the built-in administrator draws one of the administrator's tokens.
  abbrev pub IsOrdinary : Call → Type 0
  IsOrdinary (logins username _ token _) =
      (username == default_admin_username) ≡ false ⊎ (admin_token token ≡ true)
  IsOrdinary _ = Unit

  abbrev pub AllOrdinary : List Call → Type 0
  AllOrdinary [] = Unit
  AllOrdinary (call ∷ calls) = IsOrdinary call × AllOrdinary calls

  -- Only the built-in administrator has the role, and it has no session but under its tokens.
  record NoAdmin (m : Manager) : Type 0 where
    roles :
        (u : String) (a : StoredAccount)
        → lookup u m.database.users ≡ some a
        → (u == default_admin_username) ≡ false
        → a.role ≡ user
    owners :
        (token : String) (r : SessionRecord)
        → lookup token m.sessions ≡ some r
        → admin_token token ≡ false
        → (r.username == default_admin_username) ≡ false

  with_users-NoAdmin :
      (u : String) (b : StoredAccount) (m : Manager)
      → ((u == default_admin_username) ≡ false → b.role ≡ user)
      → NoAdmin m
      → NoAdmin (with_users m (insert u b m.database.users))
  with_users-NoAdmin u b m role v = record {
    roles = λ w a e other. elim (Bool-cases (u == w)) [
      | inl same ↦
          let is : a ≡ b = ground (arith, lookup-insert u w b m.database.users) in
          let own : u ≡ w = (eq_iff u w).0 same in rw is (role (rw own other))
      | inr apart ↦ v.roles w a (ground (arith, lookup-insert u w b m.database.users)) other
    ];
    owners = v.owners;
  }

  retain-NoAdmin :
      (p : String → SessionRecord → Bool) (m : Manager)
      → NoAdmin m
      → NoAdmin (with_sessions m (retain p m.sessions))
  retain-NoAdmin p m v = record {
    roles = v.roles;
    owners = λ token r e. v.owners token r (ground (arith, lookup-retain p token m.sessions));
  }

  replace_account-NoAdmin :
      (u : String) (a b : StoredAccount) (m : Manager)
      → lookup u m.database.users ≡ some a
      → b.role ≡ a.role
      → NoAdmin m
      → NoAdmin (replace_account u b m)
  replace_account-NoAdmin u a b m known same v =
      let w = with_users-NoAdmin u b m (λ other. same ∙ v.roles u a known other) v in
      record {
        roles = w.roles;
        owners = λ token r e.
            w.owners token r (ground (arith, lookup-retain (not_of u) token m.sessions));
      }

  module _ (crates : Crates) where
    persisted-NoAdmin {ℓ} :
        {A : Type ℓ} (w : WriteDisk) (m : Manager) (a : A)
        → NoAdmin m
        → NoAdmin (persisted crates w m a).1
    unfolding persisted
    persisted-NoAdmin w m a v = record { roles = v.roles; owners = v.owners }

    check_new-role :
        (u p : String) (salt : ℕ) (m : Manager) (b : StoredAccount)
        → check_new crates u p salt m ≡ ok b
        → b.role ≡ user
    unfolding check_new
    check_new-role u p salt m b h = elim (Result-cases (hash_password crates p salt)) [
      | inr (e, bad) ↦ absurd (ground arith)
      | inl (hash, good) ↦ ground arith
    ]

    owned :
        {b : Bool}
        → (token t : String) → (b ≡ false) ⊎ (admin_token token ≡ true)
        → (token == t) ≡ true
        → admin_token t ≡ false
        → b ≡ false
    owned token t (inl other) same plain = other
    owned token t (inr drawn) same plain =
        let own : token ≡ t = (eq_iff token t).0 same in absurd (ground (arith, ap admin_token own))

    step-NoAdmin :
        (m : Manager) (call : Call) → IsOrdinary call → NoAdmin m → NoAdmin (step crates m call)
    unfolding step login authenticate logout create_user delete_user change_own_password
        reset_password set_device_access
    step-NoAdmin m (logins u p token now) other v = elim (Result-cases (check_login crates u p m)) [
      | inr (e, bad) ↦ rw (bad, login, step) v
      | inl (b, good) ↦
          let opened : SessionRecord = record { username = u; expires_at = now + m.session_ttl } in
          rw (good, login, step)
            (record {
              roles = v.roles;
              owners = λ t r e plain. elim (Bool-cases (token == t)) [
                | inl same ↦
                    let is : r ≡ opened = ground (arith, lookup-insert token t opened m.sessions) in
                    rw is (owned token t other same plain)
                | inr apart ↦
                    v.owners t r (ground (arith, lookup-insert token t opened m.sessions)) plain
              ];
            })
    ]
    step-NoAdmin m (authenticates token now) _ v = retain-NoAdmin (unexpired now) m v
    step-NoAdmin m (logouts token) _ v = record {
      roles = v.roles;
      owners = λ t r e. v.owners t r (ground (arith, lookup-remove token t m.sessions));
    }
    step-NoAdmin m (creates u p salt w) _ v = elim (Result-cases (check_new crates u p salt m)) [
      | inr (e, bad) ↦ rw (bad, create_user, step) v
      | inl (b, good) ↦
          rw (good, create_user, step)
            (persisted-NoAdmin w (with_users m (insert u b m.database.users)) (public_account b)
              (with_users-NoAdmin u b m (λ other. check_new-role u p salt m b good) v))
    ]
    step-NoAdmin m (deletes u w) _ v = elim (Bool-cases (u == "admin")) [
      | inl same ↦ rw (same, delete_user, step) v
      | inr other ↦ elim (Bool-cases (is_some (lookup u m.database.users))) [
        | inr missing ↦ rw (other, missing, delete_user, step) v
        | inl there ↦
            rw (other, there, delete_user, step)
              (persisted-NoAdmin {0} w (drop_account u m) tt (record {
                roles = λ j a e. v.roles j a (ground (arith, lookup-remove u j m.database.users));
                owners =
                    λ t r e. v.owners t r (ground (arith, lookup-retain (not_of u) t m.sessions));
              }))
      ]
    ]
    step-NoAdmin m (changes u old new salt w) _ v =
        elim (Result-cases (check_change crates u old new salt m)) [
          | inr (e, bad) ↦ rw (bad, change_own_password, step) v
          | inl (b, good) ↦
              let c = check_change-Changed crates u old new salt m b good in
              rw (good, change_own_password, step)
                (persisted-NoAdmin {0} w (replace_account u b m) tt
                  (replace_account-NoAdmin u c.account b m c.known c.same_role v))
        ]
    step-NoAdmin m (resets u new salt w) _ v =
        elim (Result-cases (check_reset crates u new salt m)) [
          | inr (e, bad) ↦ rw (bad, reset_password, step) v
          | inl (b, good) ↦
              let c = check_reset-Changed crates u new salt m b good in
              rw (good, reset_password, step)
                (persisted-NoAdmin {0} w (replace_account u b m) tt
                  (replace_account-NoAdmin u c.account b m c.known c.same_role v))
        ]
    step-NoAdmin m (assigns u device assigned w) _ v =
        elim (Result-cases (check_access crates u device assigned m)) [
          | inr (e, bad) ↦ rw (bad, set_device_access, step) v
          | inl (b, good) ↦
              let c = check_access-Changed crates u device assigned m b good in
              rw (good, set_device_access, step)
                (persisted-NoAdmin w (with_users m (insert u b m.database.users)) (public_account b)
                  (with_users-NoAdmin u b m
                    (λ other. c.same_role ∙ v.roles u c.account c.known other) v))
        ]

    run-NoAdmin :
        (m : Manager) (calls : List Call)
        → AllOrdinary calls
        → NoAdmin m
        → NoAdmin (run crates m calls)
    unfolding run
    run-NoAdmin m [] o v = v
    run-NoAdmin m (call ∷ calls) (o, os) v =
        run-NoAdmin (step crates m call) calls os (step-NoAdmin m call o v)

    first_start-NoAdmin :
        (ttl : ℕ) (read : Option String) (w : WriteDisk) (salt : ℕ) (m : Manager)
        → load_or_initialize_with_session_ttl crates ttl read w salt absent ≡ ok m
        → NoAdmin m
    unfolding lookup
    first_start-NoAdmin ttl read w salt m h =
        let (hash, users, none_open) = first_start crates ttl read w salt m h in
        record {
          roles = λ u a e other. ground (
            arith,
            users,
            lookup-insert default_admin_username u (default_admin hash) [],
            eq_iff default_admin_username u,
            eq_iff u default_admin_username,
          );
          owners = λ token r e. absurd (ground (arith, none_open));
        }

    -- From the first start of Core, whatever calls are made: a token that authenticates, and that no
    -- login of the built-in administrator drew, has the role of an ordinary user.
    pub authenticate-ordinary :
        (ttl : ℕ) (read : Option String) (w : WriteDisk) (salt : ℕ) (m : Manager)
        → load_or_initialize_with_session_ttl crates ttl read w salt absent ≡ ok m
        → (calls : List Call) → AllOrdinary calls
        → (token : String) (now : ℕ) (s : AuthenticatedSession) → admin_token token ≡ false
        → (authenticate token now (run crates m calls)).0 ≡ ok s
        → s.role ≡ user
    unfolding session_from_user
    authenticate-ordinary ttl read w salt m start calls ordinary token now s plain h =
        let n = run crates m calls in
        let v = run-NoAdmin m calls ordinary (first_start-NoAdmin ttl read w salt m start) in
        elim (Option-cases (lookup token n.sessions)) [
          | inl gone ↦ absurd (ground (arith, authenticate_lem token now n))
          | inr (r, there) ↦ elim (Option-cases (lookup r.username n.database.users)) [
            | inl missing ↦ absurd (ground (arith, authenticate_lem token now n))
            | inr (a, known) ↦
                let role = v.roles r.username a known (v.owners token r there plain) in
                ground (arith, authenticate_lem token now n, role)
          ]
        ]
