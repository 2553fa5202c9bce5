-- ===== src/Remote/Auth/Preserved.antt =====
-- Every call keeps the invariant of the account manager.
use webadbcontrol.Base.{
  ℕ, ◌≡◌, String, ◌==◌, Bool, some, List, [], ◌∷◌, arith, is_some, inl, inr, Option-cases,
  Bool-cases, eq_iff,
}
use webadbcontrol.Base.Map.{lookup, lookup-insert}
use webadbcontrol.Error.{ok, Result-cases}
use webadbcontrol.Remote.Accounts.{StoredAccount, Crates, default_admin_username}
use webadbcontrol.Remote.Storage.{Manager, WriteDisk, persisted}
use webadbcontrol.Remote.Auth.{
  unexpired, login, authenticate, logout, create_user, delete_user, change_own_password,
  reset_password, set_device_access, check_login, check_new, check_change, check_reset,
  check_access,
}
use webadbcontrol.Remote.Auth.Log.{
  Call, logins, authenticates, logouts, creates, deletes, changes, resets, assigns, step, run,
}
use webadbcontrol.Remote.Auth.Invariant.{
  IsValid, with_users-IsValid, replace_account-IsValid, drop_account-IsValid,
  insert_session-IsValid, remove_session-IsValid, retain_sessions-IsValid,
}

module _ (crates : Crates) where
  persisted-IsValid {ℓ} :
      {A : Type ℓ} (w : WriteDisk) (m : Manager) (a : A)
      → IsValid m
      → IsValid (persisted crates w m a).1
  unfolding persisted
  persisted-IsValid w m a v = record {
    version = v.version;
    administrator = v.administrator;
    owned = v.owned;
  }

  -- What the checks of a method that changes an account find.
  pub record Changed (username : String) (b : StoredAccount) (m : Manager) : Type 0 where
    pub account : StoredAccount
    pub known : lookup username m.database.users ≡ some account
    pub same_role : b.role ≡ account.role
    pub same_mark : b.built_in ≡ account.built_in

  pub check_change-Changed :
      (u old new : String) (salt : ℕ) (m : Manager) (b : StoredAccount)
      → check_change crates u old new salt m ≡ ok b
      → Changed u b m
  unfolding check_change
  check_change-Changed u old new salt m b h = elim (Option-cases (lookup u m.database.users)) [
    | inl e ↦ absurd (ground arith)
    | inr (a, e) ↦ record {
      account = a;
      known = e;
      same_role = ground arith;
      same_mark = ground arith;
    }
  ]

  pub check_reset-Changed :
      (u new : String) (salt : ℕ) (m : Manager) (b : StoredAccount)
      → check_reset crates u new salt m ≡ ok b
      → Changed u b m
  unfolding check_reset
  check_reset-Changed u new salt m b h = elim (Option-cases (lookup u m.database.users)) [
    | inl e ↦ absurd (ground arith)
    | inr (a, e) ↦ record {
      account = a;
      known = e;
      same_role = ground arith;
      same_mark = ground arith;
    }
  ]

  pub check_access-Changed :
      (u device : String) (assigned : Bool) (m : Manager) (b : StoredAccount)
      → check_access crates u device assigned m ≡ ok b
      → Changed u b m
  unfolding check_access
  check_access-Changed u device assigned m b h = elim (Option-cases (lookup u m.database.users)) [
    | inl e ↦ absurd (ground arith)
    | inr (a, e) ↦ record {
      account = a;
      known = e;
      same_role = ground arith;
      same_mark = ground arith;
    }
  ]

  create_user-IsValid :
      (u p : String) (salt : ℕ) (w : WriteDisk) (m : Manager)
      → IsValid m
      → IsValid (create_user crates u p salt w m).1
  unfolding create_user
  create_user-IsValid u p salt w m v = elim (Result-cases (check_new crates u p salt m)) [
    | inr (e, bad) ↦ rw (bad, create_user) v
    | inl (b, good) ↦
        rw (good, create_user)
          (persisted-IsValid w _ _ (record {
            version = v.version;
            administrator = ground (
              arith,
              v.administrator,
              lookup-insert u default_admin_username b m.database.users,
              eq_iff u default_admin_username,
            );
            owned = λ token r e.
                ground (arith, v.owned token r, lookup-insert u r.username b m.database.users);
          }))
  ]

  delete_user-IsValid :
      (u : String) (w : WriteDisk) (m : Manager) → IsValid m → IsValid (delete_user crates u w m).1
  unfolding delete_user
  delete_user-IsValid u w m v = elim (Bool-cases (u == default_admin_username)) [
    | inl same ↦ rw (same, delete_user) v
    | inr other ↦ elim (Bool-cases (is_some (lookup u m.database.users))) [
      | inr missing ↦ rw (other, missing, delete_user) v
      | inl there ↦
          rw (other, there, delete_user)
            (persisted-IsValid w _ _ (drop_account-IsValid u m other v))
    ]
  ]

  change_own_password-IsValid :
      (u old new : String) (salt : ℕ) (w : WriteDisk) (m : Manager)
      → IsValid m
      → IsValid (change_own_password crates u old new salt w m).1
  unfolding change_own_password
  change_own_password-IsValid u old new salt w m v =
      elim (Result-cases (check_change crates u old new salt m)) [
        | inr (e, bad) ↦ rw (bad, change_own_password) v
        | inl (b, good) ↦
            let c = check_change-Changed u old new salt m b good in
            rw (good, change_own_password)
              (persisted-IsValid w _ _
                (replace_account-IsValid u c.account b m c.known c.same_role c.same_mark v))
      ]

  reset_password-IsValid :
      (u new : String) (salt : ℕ) (w : WriteDisk) (m : Manager)
      → IsValid m
      → IsValid (reset_password crates u new salt w m).1
  unfolding reset_password
  reset_password-IsValid u new salt w m v = elim (Result-cases (check_reset crates u new salt m)) [
    | inr (e, bad) ↦ rw (bad, reset_password) v
    | inl (b, good) ↦
        let c = check_reset-Changed u new salt m b good in
        rw (good, reset_password)
          (persisted-IsValid w _ _
            (replace_account-IsValid u c.account b m c.known c.same_role c.same_mark v))
  ]

  set_device_access-IsValid :
      (u device : String) (assigned : Bool) (w : WriteDisk) (m : Manager)
      → IsValid m
      → IsValid (set_device_access crates u device assigned w m).1
  unfolding set_device_access
  set_device_access-IsValid u device assigned w m v =
      elim (Result-cases (check_access crates u device assigned m)) [
        | inr (e, bad) ↦ rw (bad, set_device_access) v
        | inl (b, good) ↦
            let c = check_access-Changed u device assigned m b good in
            rw (good, set_device_access)
              (persisted-IsValid w _ _
                (with_users-IsValid u c.account b m c.known c.same_role c.same_mark v))
      ]

  login-IsValid :
      (u p token : String) (now : ℕ) (m : Manager)
      → IsValid m
      → IsValid (login crates u p token now m).1
  unfolding login check_login
  login-IsValid u p token now m v = elim (Result-cases (check_login crates u p m)) [
    | inr (e, bad) ↦ rw (bad, login) v
    | inl (b, good) ↦ rw (good, login) (insert_session-IsValid token _ m (ground arith) v)
  ]

  pub step-IsValid : (m : Manager) (call : Call) → IsValid m → IsValid (step crates m call)
  unfolding step authenticate logout
  step-IsValid m (logins u p token now) v = login-IsValid u p token now m v
  step-IsValid m (authenticates token now) v = retain_sessions-IsValid (unexpired now) m v
  step-IsValid m (logouts token) v = remove_session-IsValid token m v
  step-IsValid m (creates u p salt w) v = create_user-IsValid u p salt w m v
  step-IsValid m (deletes u w) v = delete_user-IsValid u w m v
  step-IsValid m (changes u old new salt w) v = change_own_password-IsValid u old new salt w m v
  step-IsValid m (resets u new salt w) v = reset_password-IsValid u new salt w m v
  step-IsValid m (assigns u device assigned w) v = set_device_access-IsValid u device assigned w m v

  pub run-IsValid : (m : Manager) (calls : List Call) → IsValid m → IsValid (run crates m calls)
  unfolding run
  run-IsValid m [] v = v
  run-IsValid m (call ∷ calls) v = run-IsValid (step crates m call) calls (step-IsValid m call v)
