-- ===== src/Remote/Storage.antt =====
-- remote/auth.rs: the account database on disk, and `RemoteAccountManager`'s state.
pub mod Loading
use webadbcontrol.Base.{
  ℕ, String, Bool, true, Option, none, some, List, [], ◌∷◌, if◌then◌else◌, ◌⊎◌, inl, inr,
}
use webadbcontrol.Base.Map.{Map, insert}
use webadbcontrol.Error.{AppError, Result, ok, err, ◌>>=◌, ◌>>◌}
use webadbcontrol.Remote.Accounts.{
  admin, StoredAccount, AccountDatabase, Crates, storage_error, validate_database, hash_password,
  default_admin_username, default_admin_password, database_version,
}

-- The file at the manager's path.
pub data Disk : Type 0 where
  absent : Disk
  holds : String → Disk

-- What the file system does to a write: each step's error, if it fails. A write that fails after
-- the file was truncated leaves `left_over`.
pub record WriteDisk : Type 0 where
  pub has_parent : Bool
  pub create_dir : Option String
  pub open_file : Option String
  pub write_all : Option String
  pub left_over : String

pub record SessionRecord : Type 0 where
  pub username : String
  pub expires_at : ℕ

-- The mutex is never poisoned: no code that holds it panics.
pub record Manager : Type 0 where
  pub disk : Disk
  pub session_ttl : ℕ
  pub database : AccountDatabase
  pub sessions : Map SessionRecord

abbrev pub with_users : Manager → Map StoredAccount → Manager
with_users m users = record m { database = record m.database { users = users } }

unfoldable pub persist_database :
    Crates → WriteDisk → Disk → AccountDatabase → Result (Unit {0}) × Disk
persist_database crates w disk database = elim (if w.has_parent then w.create_dir else none) [
  | some cause ↦ (err (storage_error "REMOTE_AUTH_DIRECTORY_CREATE_FAILED" cause), disk)
  | none ↦ elim (crates.to_vec_pretty database) [
    | inl cause ↦ (err (storage_error "REMOTE_AUTH_SERIALIZE_FAILED" cause), disk)
    | inr bytes ↦ elim w.open_file [
      | some cause ↦ (err (storage_error "REMOTE_AUTH_WRITE_FAILED" cause), disk)
      | none ↦ elim w.write_all [
        | some cause ↦ (err (storage_error "REMOTE_AUTH_WRITE_FAILED" cause), holds w.left_over)
        | none ↦ (ok tt, holds bytes)
      ]
    ]
  ]
]

-- `persist_locked`, and the method's result if it succeeds.
unfoldable pub persisted {ℓ} : {A : Type ℓ} → Crates → WriteDisk → Manager → A → Result A × Manager
persisted crates w m a =
    let (written, disk) = persist_database crates w m.disk m.database in
    ((written >>= λ _. ok a), record m { disk = disk })

abbrev fresh_manager : ℕ → Disk → AccountDatabase → Manager
fresh_manager session_ttl disk database = record {
  disk = disk;
  session_ttl = session_ttl;
  database = database;
  sessions = [];
}

abbrev pub default_admin : String → StoredAccount
default_admin password_hash = record {
  username = default_admin_username;
  password_hash = password_hash;
  role = admin;
  devices = [];
  built_in = true;
  password_change_required = true;
}

-- The branch where the file exists; `read` is the error of reading it.
load_existing : Crates → ℕ → Option String → String → Result Manager
load_existing crates session_ttl (some cause) bytes =
    err (storage_error "REMOTE_AUTH_READ_FAILED" cause)
load_existing crates session_ttl none bytes = elim (crates.from_slice bytes) [
  | inl cause ↦ err (storage_error "REMOTE_AUTH_DATABASE_INVALID" cause)
  | inr database ↦ do
    validate_database database
    ok (fresh_manager session_ttl (holds bytes) database)
]

initialize : Crates → ℕ → WriteDisk → ℕ → Result Manager
initialize crates session_ttl w salt_bits = do
  password_hash ← hash_password crates default_admin_password salt_bits
  let database : AccountDatabase = record {
    version = database_version;
    users = insert default_admin_username (default_admin password_hash) [];
  }
  let (written, disk) = persist_database crates w absent database
  written
  ok (fresh_manager session_ttl disk database)

unfoldable pub load_or_initialize_with_session_ttl :
    Crates → ℕ → Option String → WriteDisk → ℕ → Disk → Result Manager
unfolding load_existing initialize
load_or_initialize_with_session_ttl crates session_ttl read w salt_bits absent =
    initialize crates session_ttl w salt_bits
load_or_initialize_with_session_ttl crates session_ttl read w salt_bits (holds bytes) =
    load_existing crates session_ttl read bytes
