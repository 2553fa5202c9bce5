-- ===== src/Remote/Auth/Durable.antt =====
-- What is on the disk after calls that were saved, and what a failed save leaves behind.
use webadbcontrol.Base.{
  ℕ, ◌≡◌, String, ◌==◌, Option, none, List, [], ◌∷◌, arith, inl, inr, is_some, Bool-cases, eq_refl,
}
use webadbcontrol.Base.Map.{lookup, insert, lookup-insert}
use webadbcontrol.Error.{AppError, ok, err, Result-cases}
use webadbcontrol.Remote.Accounts.{
  public_account, AccountDatabase, Crates, validate_username, validate_new_password, hash_password,
  verify_password, session_from_user,
}
use webadbcontrol.Remote.Storage.{
  with_users, Manager, WriteDisk, Disk, persisted, persist_database,
  load_or_initialize_with_session_ttl,
}
use webadbcontrol.Remote.Storage.Loading.{
  Decodes, InSync, persist_database-ok, load_or_initialize_lem, load_of_InSync,
}
use webadbcontrol.Remote.Auth.{
  replace_account, drop_account, login, authenticate, logout, create_user, delete_user,
  change_own_password, reset_password, set_device_access, user_exists, new_account, check_login,
  check_new, check_change, check_reset, check_access,
}
use webadbcontrol.Remote.Auth.Passwords.{Verifies, hash_password-verify}
use webadbcontrol.Remote.Auth.Sessions.{run-validate_database}
use webadbcontrol.Remote.Auth.Log.{
  Call, logins, authenticates, logouts, creates, deletes, changes, resets, assigns, step, run,
}

module _ (crates : Crates) (m : Manager) where
  -- The disk takes a database that the manager hands it.
  abbrev pub Takes : WriteDisk → AccountDatabase → Type 0
  Takes w db = (persist_database crates w m.disk db).0 ≡ ok tt

  -- The disk takes the database that the call leaves, if the call is one that saves.
  abbrev pub TakesCall : Call → AccountDatabase → Type 0
  TakesCall (creates _ _ _ w) db = Takes w db
  TakesCall (deletes _ w) db = Takes w db
  TakesCall (changes _ _ _ _ w) db = Takes w db
  TakesCall (resets _ _ _ w) db = Takes w db
  TakesCall (assigns _ _ _ w) db = Takes w db
  TakesCall _ db = Unit

abbrev pub AllSaved : Crates → Manager → List Call → Type 0
AllSaved crates m [] = Unit
AllSaved crates m (call ∷ calls) =
    TakesCall crates m call (step crates m call).database
    × AllSaved crates (step crates m call) calls

abbrev IsSaved : Crates → Manager → Type 0
IsSaved crates m = InSync crates m.disk m.database

module _ (crates : Crates) (decodes : Decodes crates) where
  persisted-IsSaved {ℓ} :
      {A : Type ℓ} (w : WriteDisk) (m : Manager) (a : A)
      → Takes crates m w m.database
      → IsSaved crates (persisted crates w m a).1
  unfolding persisted
  persisted-IsSaved w m a takes = persist_database-ok crates w m.disk m.database decodes takes

  step-IsSaved :
      (m : Manager) (call : Call)
      → IsSaved crates m
      → TakesCall crates m call (step crates m call).database
      → IsSaved crates (step crates m call)
  unfolding step login authenticate logout create_user delete_user change_own_password
      reset_password set_device_access persisted
  step-IsSaved m (logins u p token now) s = elim (Result-cases (check_login crates u p m)) [
    | inr (e, bad) ↦ rw (bad, login, step) (λ d. s)
    | inl (b, good) ↦ rw (good, login, step) (λ d. s)
  ]
  step-IsSaved m (authenticates token now) s = λ d. s
  step-IsSaved m (logouts token) s = λ d. s
  step-IsSaved m (creates u p salt w) s = elim (Result-cases (check_new crates u p salt m)) [
    | inr (e, bad) ↦ rw (bad, create_user, step) (λ d. s)
    | inl (b, good) ↦
        rw (good, create_user, step)
          (persisted-IsSaved w (with_users m (insert u b m.database.users)) (public_account b))
  ]
  step-IsSaved m (deletes u w) s = elim (Bool-cases (u == "admin")) [
    | inl same ↦ rw (same, delete_user, step) (λ d. s)
    | inr other ↦ elim (Bool-cases (is_some (lookup u m.database.users))) [
      | inr absent ↦ rw (other, absent, delete_user, step) (λ d. s)
      | inl there ↦
          rw (other, there, delete_user, step) (persisted-IsSaved {0} w (drop_account u m) tt)
    ]
  ]
  step-IsSaved m (changes u old new salt w) s =
      elim (Result-cases (check_change crates u old new salt m)) [
        | inr (e, bad) ↦ rw (bad, change_own_password, step) (λ d. s)
        | inl (b, good) ↦
            rw (good, change_own_password, step)
              (persisted-IsSaved {0} w (replace_account u b m) tt)
      ]
  step-IsSaved m (resets u new salt w) s = elim (Result-cases (check_reset crates u new salt m)) [
    | inr (e, bad) ↦ rw (bad, reset_password, step) (λ d. s)
    | inl (b, good) ↦
        rw (good, reset_password, step) (persisted-IsSaved {0} w (replace_account u b m) tt)
  ]
  step-IsSaved m (assigns u device assigned w) s =
      elim (Result-cases (check_access crates u device assigned m)) [
        | inr (e, bad) ↦ rw (bad, set_device_access, step) (λ d. s)
        | inl (b, good) ↦
            rw (good, set_device_access, step)
              (persisted-IsSaved w (with_users m (insert u b m.database.users)) (public_account b))
      ]

  run-IsSaved :
      (m : Manager) (calls : List Call)
      → AllSaved crates m calls
      → IsSaved crates m
      → IsSaved crates (run crates m calls)
  unfolding run
  run-IsSaved m [] d s = s
  run-IsSaved m (call ∷ calls) (d, ds) s =
      run-IsSaved (step crates m call) calls ds (step-IsSaved m call s d)

  -- Core restarts: after any calls whose saves the disk takes, the file is loaded as the very database
  -- that was in memory. Only the sessions are gone.
  pub load-run :
      (ttl : ℕ) (read : Option String) (w w' : WriteDisk) (salt salt' : ℕ) (disk : Disk)
      (m : Manager)
      → load_or_initialize_with_session_ttl crates ttl read w salt disk ≡ ok m
      → (calls : List Call) → AllSaved crates m calls
      → let n = run crates m calls in
        load_or_initialize_with_session_ttl crates ttl none w' salt' n.disk
        ≡ ok (record n { sessions = []; session_ttl = ttl })
  load-run ttl read w w' salt salt' disk m loads calls d =
      let n = run crates m calls in
      load_of_InSync crates ttl w' salt' n.disk n.database
        (run-IsSaved m calls d
          (load_or_initialize_lem crates ttl read w salt disk m decodes loads).3)
        (run-validate_database crates decodes ttl read w salt disk m loads calls)

-- An account that passes the checks but whose save fails is reported as an error and not taken
-- back: until Core restarts it opens with its password, and it cannot be created again.
pub create_user_unsaved :
    (crates : Crates) (u p encoded : String) (salt : ℕ) (w : WriteDisk) (m : Manager) (e : AppError)
    → Verifies crates
    → validate_username u ≡ ok tt
    → validate_new_password p ≡ ok tt
    → lookup u m.database.users ≡ none
    → hash_password crates p salt ≡ ok encoded
    → (persist_database crates w m.disk
        (record m.database { users = insert u (new_account u encoded) m.database.users })).0
      ≡ err e
    → let (result, after) = create_user crates u p salt w m in
      (result ≡ err e)
      × ((token : String) (now : ℕ)
          → (login crates u p token now after).0
            ≡ ok (session_from_user token (new_account u encoded)))
      × ((salt' : ℕ) (w' : WriteDisk) → (create_user crates u p salt' w' after).0 ≡ err user_exists)
unfolding create_user login persisted check_login check_new verify_password
create_user_unsaved crates u p encoded salt w m e verifies name password fresh hashed failed =
    let a = new_account u encoded in
    let is_there = lookup-insert u u a m.database.users in
    (
      ground (arith, is_there, eq_refl u),
      (λ token now.
          ground (
            arith,
            is_there,
            eq_refl u,
            hash_password-verify crates verifies p salt encoded hashed,
          )),
      (λ salt' w'. ground (arith, is_there, eq_refl u)),
    )
