-- ===== src/Remote/Auth/Revocation.antt =====
-- Deleting an account, changing its password or resetting it ends the account's sessions.
use webadbcontrol.Base.{
  ℕ, ◌≡◌, ◌∙◌, ◌≢◌, String, ◌==◌, none, some, arith, if◌then◌else◌, is_some, inl, inr, Bool-cases,
  eq_iff,
}
use webadbcontrol.Base.Map.{lookup, lookup-insert, lookup-remove, lookup-retain}
use webadbcontrol.Error.{Result, ok, Result-cases}
use webadbcontrol.Remote.Accounts.{
  AuthenticatedSession, StoredAccount, Crates, default_admin_username,
}
use webadbcontrol.Remote.Storage.{Manager, SessionRecord, WriteDisk, persisted, persist_database}
use webadbcontrol.Remote.Auth.{
  not_of, replace_account, drop_account, authenticate, delete_user, change_own_password,
  reset_password, check_change, check_reset,
}
use webadbcontrol.Remote.Auth.Sessions.{missing, authenticate_lem}

-- What a token of the session `r` gets once the sessions of `username` have ended.
abbrev pub after_revoking :
    String → String → ℕ → SessionRecord → Manager → Result AuthenticatedSession
after_revoking username token now r m =
    if r.username == username then missing else (authenticate token now m).0

replace_account_lem :
    (u : String) (b : StoredAccount) (m : Manager) (token : String) (r : SessionRecord) (now : ℕ)
    → lookup token m.sessions ≡ some r
    → (authenticate token now (replace_account u b m)).0 ≡ after_revoking u token now r m
replace_account_lem u b m token r now e = ground (
  arith,
  authenticate_lem token now m,
  authenticate_lem token now (replace_account u b m),
  lookup-retain (not_of u) token m.sessions,
  lookup-insert u r.username b m.database.users,
  eq_iff u r.username,
  eq_iff r.username u,
)

drop_account_lem :
    (u : String) (m : Manager) (token : String) (r : SessionRecord) (now : ℕ)
    → lookup token m.sessions ≡ some r
    → (authenticate token now (drop_account u m)).0 ≡ after_revoking u token now r m
drop_account_lem u m token r now e = ground (
  arith,
  authenticate_lem token now m,
  authenticate_lem token now (drop_account u m),
  lookup-retain (not_of u) token m.sessions,
  lookup-remove u r.username m.database.users,
  eq_iff u r.username,
  eq_iff r.username u,
)

module _ (crates : Crates) where
  pub authenticate-persisted {ℓ} :
      {A : Type ℓ} (w : WriteDisk) (m : Manager) (a : A) (token : String) (now : ℕ)
      → (authenticate token now (persisted crates w m a).1).0 ≡ (authenticate token now m).0
  unfolding persisted
  authenticate-persisted w m a token now = ground (
    arith,
    authenticate_lem token now m,
    authenticate_lem token now
        (record m { disk = (persist_database crates w m.disk m.database).1 }),
  )

  persisted_removed :
      (u : String) (w : WriteDisk) (m : Manager) (v : String)
      → lookup v (persisted {0} crates w (drop_account u m) tt).1.database.users
        ≡ (if u == v then none else lookup v m.database.users)
  unfolding persisted
  persisted_removed u w m v = lookup-remove u v m.database.users

  -- A password change that is accepted ends every session of the account, and no other session.
  pub authenticate-change_own_password :
      (u old new : String) (salt : ℕ) (w : WriteDisk) (m : Manager)
      → (change_own_password crates u old new salt w m).0 ≡ ok tt
      → (token : String) (r : SessionRecord) (now : ℕ) → lookup token m.sessions ≡ some r
      → (authenticate token now (change_own_password crates u old new salt w m).1).0
        ≡ after_revoking u token now r m
  unfolding change_own_password
  authenticate-change_own_password u old new salt w m h token r now e =
      elim (Result-cases (check_change crates u old new salt m)) [
        | inr (x, bad) ↦ absurd (ground arith)
        | inl (b, good) ↦
            rw (good, change_own_password)
              (authenticate-persisted w (replace_account u b m) tt token now
                ∙ replace_account_lem u b m token r now e)
      ]

  -- A reset that is accepted ends every session of the account, and no other session.
  pub authenticate-reset_password :
      (u new : String) (salt : ℕ) (w : WriteDisk) (m : Manager)
      → (reset_password crates u new salt w m).0 ≡ ok tt
      → (token : String) (r : SessionRecord) (now : ℕ) → lookup token m.sessions ≡ some r
      → (authenticate token now (reset_password crates u new salt w m).1).0
        ≡ after_revoking u token now r m
  unfolding reset_password
  authenticate-reset_password u new salt w m h token r now e =
      elim (Result-cases (check_reset crates u new salt m)) [
        | inr (x, bad) ↦ absurd (ground arith)
        | inl (b, good) ↦
            rw (good, reset_password)
              (authenticate-persisted w (replace_account u b m) tt token now
                ∙ replace_account_lem u b m token r now e)
      ]

  -- A deletion that is accepted is not of the built-in administrator; it removes the account's entry
  -- and no other, and ends every session of the account and no other.
  pub authenticate-delete_user :
      (u : String) (w : WriteDisk) (m : Manager)
      → (delete_user crates u w m).0 ≡ ok tt
      → (token : String) (r : SessionRecord) (now : ℕ) → lookup token m.sessions ≡ some r
      → (u ≢ default_admin_username)
        × ((v : String)
            → lookup v (delete_user crates u w m).1.database.users
              ≡ (if u == v then none else lookup v m.database.users))
        × ((authenticate token now (delete_user crates u w m).1).0 ≡ after_revoking u token now r m)
  unfolding delete_user
  authenticate-delete_user u w m h token r now e = elim (Bool-cases (u == default_admin_username)) [
    | inl same ↦ absurd (ground arith)
    | inr other ↦ elim (Bool-cases (is_some (lookup u m.database.users))) [
      | inr absent ↦ absurd (ground arith)
      | inl there ↦ (
        (λ p. ground (arith, eq_iff u default_admin_username)),
        (λ v. rw (other, there, delete_user) (persisted_removed u w m v)),
        rw (other, there, delete_user)
            (authenticate-persisted w (drop_account u m) tt token now
              ∙ drop_account_lem u m token r now e),
      )
    ]
  ]
