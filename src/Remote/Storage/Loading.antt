-- ===== src/Remote/Storage/Loading.antt =====
-- What a manager that was loaded or initialised starts with.
use webadbcontrol.Base.{
  ℕ, ◌≡◌, String, true, Option, none, some, [], arith, inl, inr, ◌↔◌, Sum-cases, eq_refl,
}
use webadbcontrol.Base.Map.{lookup, insert, lookup-insert}
use webadbcontrol.Error.{ok, Result-cases}
use webadbcontrol.Remote.Accounts.{
  AccountDatabase, Crates, is_builtin_admin, database_version, default_admin_username,
  default_admin_password, validate_database, hash_password,
}
use webadbcontrol.Remote.Storage.{
  Manager, WriteDisk, Disk, absent, holds, fresh_manager, default_admin, persist_database,
  load_existing, initialize, load_or_initialize_with_session_ttl,
}

-- The check of a loaded database, as a statement.
pub validate_database-ok :
    (db : AccountDatabase)
    → (validate_database db ≡ ok tt) ↔ (
        (db.version ≡ database_version)
        × (is_builtin_admin (lookup default_admin_username db.users) ≡ true))
unfolding validate_database
validate_database-ok db = ((λ h. (ground arith, ground arith)), (λ h. ground arith))

-- serde_json decodes what it encoded.
abbrev pub Decodes : Crates → Type 0
Decodes crates =
    (db : AccountDatabase) (bytes : String)
    → crates.to_vec_pretty db ≡ inr bytes
    → crates.from_slice bytes ≡ inr db

-- The file holds the database.
abbrev pub InSync : Crates → Disk → AccountDatabase → Type 0
InSync crates disk db = (bytes : String) × (disk ≡ holds bytes) × (crates.from_slice bytes ≡ inr db)

module _ (crates : Crates) where
  pub persist_database-ok :
      (w : WriteDisk) (disk : Disk) (db : AccountDatabase)
      → Decodes crates
      → (persist_database crates w disk db).0 ≡ ok tt
      → InSync crates (persist_database crates w disk db).1 db
  unfolding persist_database
  persist_database-ok w disk db decodes h = elim (Sum-cases (crates.to_vec_pretty db)) [
    | inl (cause, e) ↦ absurd (ground arith)
    | inr (bytes, e) ↦ (bytes, ground arith, decodes db bytes e)
  ]

  initialize_lem :
      (ttl : ℕ) (w : WriteDisk) (salt : ℕ) (m : Manager)
      → Decodes crates
      → initialize crates ttl w salt ≡ ok m
      → (m.sessions ≡ [])
        × (m.session_ttl ≡ ttl)
        × (validate_database m.database ≡ ok tt)
        × InSync crates m.disk m.database
  unfolding initialize validate_database
  initialize_lem ttl w salt m decodes h =
      elim (Result-cases (hash_password crates default_admin_password salt)) [
        | inr (e, bad) ↦ absurd (ground arith)
        | inl (hash, good) ↦
            let db : AccountDatabase = record {
              version = database_version;
              users = insert default_admin_username (default_admin hash) [];
            } in
            elim (Result-cases (persist_database crates w absent db).0) [
              | inr (e, bad) ↦ absurd (ground arith)
              | inl (_, saved) ↦ (
                ground arith,
                ground arith,
                ground (
                  arith,
                  lookup-insert default_admin_username default_admin_username (default_admin hash)
                      [],
                  eq_refl default_admin_username,
                ),
                let e : m ≡ fresh_manager ttl (persist_database crates w absent db).1 db =
                      ground arith in
                    rw e (persist_database-ok w absent db decodes saved),
              )
            ]
      ]

  load_existing_lem :
      (ttl : ℕ) (read : Option String) (bytes : String) (m : Manager)
      → load_existing crates ttl read bytes ≡ ok m
      → (m.sessions ≡ [])
        × (m.session_ttl ≡ ttl)
        × (validate_database m.database ≡ ok tt)
        × InSync crates m.disk m.database
  unfolding load_existing
  load_existing_lem ttl (some cause) bytes m h = absurd (ground arith)
  load_existing_lem ttl none bytes m h = elim (Sum-cases (crates.from_slice bytes)) [
    | inl (cause, e) ↦ absurd (ground arith)
    | inr (db, e) ↦ (ground arith, ground arith, ground arith, (bytes, ground arith, ground arith))
  ]

  -- A manager starts with no session and with a database that passes the check and is in the file.
  pub load_or_initialize_lem :
      (ttl : ℕ) (read : Option String) (w : WriteDisk) (salt : ℕ) (disk : Disk) (m : Manager)
      → Decodes crates
      → load_or_initialize_with_session_ttl crates ttl read w salt disk ≡ ok m
      → (m.sessions ≡ [])
        × (m.session_ttl ≡ ttl)
        × (validate_database m.database ≡ ok tt)
        × InSync crates m.disk m.database
  unfolding load_or_initialize_with_session_ttl
  load_or_initialize_lem ttl read w salt absent m decodes h = initialize_lem ttl w salt m decodes h
  load_or_initialize_lem ttl read w salt (holds bytes) m decodes h =
      load_existing_lem ttl read bytes m h

  -- A file that holds a database which passes the check is loaded as that database.
  pub load_of_InSync :
      (ttl : ℕ) (w : WriteDisk) (salt : ℕ) (disk : Disk) (db : AccountDatabase)
      → InSync crates disk db
      → validate_database db ≡ ok tt
      → load_or_initialize_with_session_ttl crates ttl none w salt disk
        ≡ ok (fresh_manager ttl disk db)
  unfolding load_or_initialize_with_session_ttl load_existing
  load_of_InSync ttl w salt disk db (bytes, is, decoded) valid = rw is (ground arith)

  -- Where there is no file, the only account is the built-in administrator.
  pub first_start :
      (ttl : ℕ) (read : Option String) (w : WriteDisk) (salt : ℕ) (m : Manager)
      → load_or_initialize_with_session_ttl crates ttl read w salt absent ≡ ok m
      → (hash : String) × (m.database.users ≡ insert default_admin_username (default_admin hash) [])
        × (m.sessions ≡ [])
  unfolding load_or_initialize_with_session_ttl initialize
  first_start ttl read w salt m h =
      elim (Result-cases (hash_password crates default_admin_password salt)) [
        | inr (e, bad) ↦ absurd (ground arith)
        | inl (hash, good) ↦
            let db : AccountDatabase = record {
              version = database_version;
              users = insert default_admin_username (default_admin hash) [];
            } in
            elim (Result-cases (persist_database crates w absent db).0) [
              | inr (e, bad) ↦ absurd (ground arith)
              | inl (_, saved) ↦ (hash, ground arith, ground arith)
            ]
      ]
