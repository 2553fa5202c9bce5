-- ===== src/Remote/Auth/Passwords.antt =====
-- Which passwords open an account after its password was set.
use webadbcontrol.Base.{
  ℕ, ◌≡◌, String, Bool, true, false, some, arith, inr, inl, Option-cases, Sum-cases, eq_refl,
}
use webadbcontrol.Base.Map.{lookup, lookup-insert}
use webadbcontrol.Error.{ok, Result-cases, ◌>>◌}
use webadbcontrol.Remote.Accounts.{
  StoredAccount, Crates, matches, hash_password, verify_password, session_from_user,
}
use webadbcontrol.Remote.Storage.{Manager, WriteDisk, persisted}
use webadbcontrol.Remote.Auth.{
  replace_account, login, change_own_password, reset_password, check_login, check_change,
  check_reset,
}

-- A hash that argon2 makes is one that it verifies.
abbrev pub Verifies : Crates → Type 0
Verifies crates =
    (password salt encoded : String)
    → crates.hash password salt ≡ inr encoded
    → crates.verify password encoded ≡ matches

-- The account `b` is the account of `username` with a new password, which `verify` accepts; a login
-- is decided by the new password alone.
pub record Opens (crates : Crates) (username password : String) (change_required : Bool)
    (before after : Manager) : Type 0 where
  pub old : StoredAccount
  pub encoded : String
  pub known : lookup username before.database.users ≡ some old
  pub accepted : crates.verify password encoded ≡ matches
  pub opens :
      (p token : String) (now : ℕ)
      → (login crates username p token now after).0 ≡ (
          verify_password crates p encoded
          >> ok (
              session_from_user token (record old {
                password_hash = encoded;
                password_change_required = change_required;
              })))

module _ (crates : Crates) (verifies : Verifies crates) where
  pub hash_password-verify :
      (password : String) (salt : ℕ) (encoded : String)
      → hash_password crates password salt ≡ ok encoded
      → crates.verify password encoded ≡ matches
  unfolding hash_password
  hash_password-verify password salt encoded h = elim (Sum-cases (crates.encode_salt salt)) [
    | inl (x, e) ↦ absurd (ground arith)
    | inr (s, e) ↦ elim (Sum-cases (crates.hash password s)) [
      | inl (x, f) ↦ absurd (ground arith)
      | inr (t, f) ↦ verifies password s encoded (ground arith)
    ]
  ]

  login_replaced :
      (u : String) (b : StoredAccount) (w : WriteDisk) (m : Manager) (p token : String) (now : ℕ)
      → (login crates u p token now (persisted {0} crates w (replace_account u b m) tt).1).0
        ≡ (verify_password crates p b.password_hash >> ok (session_from_user token b))
  unfolding login check_login persisted
  login_replaced u b w m p token now =
      ground (arith, lookup-insert u u b m.database.users, eq_refl u)

  -- After a password change that is accepted, the account opens with the new password and with
  -- what argon2 accepts for it, and with nothing else; it keeps its role and its devices, and it
  -- need not change its password again.
  pub change_own_password-Opens :
      (u old new : String) (salt : ℕ) (w : WriteDisk) (m : Manager)
      → (change_own_password crates u old new salt w m).0 ≡ ok tt
      → Opens crates u new false m (change_own_password crates u old new salt w m).1
  unfolding change_own_password check_change
  change_own_password-Opens u old new salt w m h = elim (Option-cases (lookup u m.database.users)) [
    | inl e ↦ absurd (ground arith)
    | inr (a, e) ↦ elim (Result-cases (hash_password crates new salt)) [
      | inr (x, bad) ↦ absurd (ground arith)
      | inl (encoded, good) ↦
          let b : StoredAccount = record a {
            password_hash = encoded;
            password_change_required = false;
          } in
          record {
            old = a;
            encoded = encoded;
            known = e;
            accepted = hash_password-verify new salt encoded good;
            opens = λ p token now. ground (arith, login_replaced u b w m p token now);
          }
    ]
  ]

  -- After a reset that is accepted, the account opens in the same way with the new password, and
  -- must change it.
  pub reset_password-Opens :
      (u new : String) (salt : ℕ) (w : WriteDisk) (m : Manager)
      → (reset_password crates u new salt w m).0 ≡ ok tt
      → Opens crates u new true m (reset_password crates u new salt w m).1
  unfolding reset_password check_reset
  reset_password-Opens u new salt w m h = elim (Option-cases (lookup u m.database.users)) [
    | inl e ↦ absurd (ground arith)
    | inr (a, e) ↦ elim (Result-cases (hash_password crates new salt)) [
      | inr (x, bad) ↦ absurd (ground arith)
      | inl (encoded, good) ↦
          let b : StoredAccount = record a {
            password_hash = encoded;
            password_change_required = true;
          } in
          record {
            old = a;
            encoded = encoded;
            known = e;
            accepted = hash_password-verify new salt encoded good;
            opens = λ p token now. ground (arith, login_replaced u b w m p token now);
          }
    ]
  ]
