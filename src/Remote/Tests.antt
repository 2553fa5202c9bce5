-- ===== src/Remote/Tests.antt =====
-- The account manager on concrete inputs: the cases of the tests in remote/auth.rs, and the theorems
-- at inputs that meet their hypotheses.
use native.Mathlib.Decide.{ℕ_discrete}
use webadbcontrol.Base.{
  ℕ, ◌≡◌, refl, ap, String, ◌==◌, ◌<>◌, true, false, none, some, List, [], ◌∷◌, arith,
  if◌then◌else◌, inl, inr, ◌⊎◌, eq_refl,
}
use webadbcontrol.Base.Text.{is_blank, is_ascii_alphanumeric, String-discrete}
use webadbcontrol.Base.Map.{lookup, insert, remove, retain}
use webadbcontrol.Error.{AppError, ok, err}
use webadbcontrol.Remote.Accounts.{
  StoredAccount, AccountDatabase, Crates, matches, mismatch, RemoteRole, admin, user,
  session_from_user, validate_database, validate_username, validate_new_password, hash_password,
  verify_password, public_account, storage_error,
}
use webadbcontrol.Remote.Storage.{
  Manager, SessionRecord, WriteDisk, Disk, holds, persisted, persist_database,
  load_or_initialize_with_session_ttl, default_admin,
}
use webadbcontrol.Remote.Storage.Loading.{Decodes}
use webadbcontrol.Remote.Auth.{
  login, authenticate, logout, create_user, delete_user, change_own_password, reset_password,
  set_device_access, new_account, user_exists,
}
use webadbcontrol.Remote.Auth.Log.{Call, logins, creates, step, run}
use webadbcontrol.Remote.Auth.Passwords.{
  Verifies, Opens, change_own_password-Opens, reset_password-Opens,
}
use webadbcontrol.Remote.Auth.Sessions.{missing, run-validate_database, authenticate-login}
use webadbcontrol.Remote.Auth.Revocation.{
  authenticate-change_own_password, authenticate-reset_password, authenticate-delete_user,
}
use webadbcontrol.Remote.Auth.Durable.{AllSaved, load-run, create_user_unsaved}

all_shut : Unit {0}
unfolding run step login authenticate logout create_user delete_user change_own_password
    reset_password set_device_access persisted load_or_initialize_with_session_ttl lookup insert
    remove retain validate_username validate_new_password validate_database hash_password
    verify_password is_blank is_ascii_alphanumeric public_account session_from_user
all_shut = tt

abbrev pub first_database : AccountDatabase
first_database = record { version = 1; users = ("admin", default_admin "hash:admin") ∷ [] }

abbrev pub alice : StoredAccount
alice = new_account "alice" "hash:password1"

abbrev second_database : AccountDatabase
second_database = record {
  version = 1;
  users = ("admin", default_admin "hash:admin") ∷ ("alice", alice) ∷ [];
}

RemoteRole-discrete : Discrete RemoteRole
RemoteRole-discrete admin admin = yes refl
RemoteRole-discrete user user = yes refl
RemoteRole-discrete admin user = no (λ p. cc)
RemoteRole-discrete user admin = no (λ p. cc)

AccountDatabase-discrete : Discrete AccountDatabase
AccountDatabase-discrete = hlevel (ℕ_discrete, String-discrete, RemoteRole-discrete)

pub encode : AccountDatabase → String ⊎ String
encode db = elim (AccountDatabase-discrete db second_database) [
  | yes _ ↦ inr "second"
  | no _ ↦ inl "unknown"
]

-- A hash that keeps the password, and a codec that knows two databases.
abbrev pub crates : Crates
crates = record {
  encode_salt = λ bits. inr "salt";
  hash = λ password salt. inr ("hash:" <> password);
  verify = λ password encoded. if ("hash:" <> password) == encoded then matches else mismatch;
  from_slice = λ bytes.
      if bytes == "first"
      then inr first_database
      else if bytes == "second"
      then inr second_database
      else inl "unknown";
  to_vec_pretty = encode;
}

Verifies-crates : Verifies crates
Verifies-crates password salt encoded h = ground (arith, eq_refl ("hash:" <> password))

Decodes-crates : Decodes crates
unfolding encode
Decodes-crates db bytes h = elim (AccountDatabase-discrete db second_database) [
  | yes p ↦ let e : bytes ≡ "second" = ground arith in rw (e, p) refl
  | no q ↦ absurd (ground arith)
]

encode_test : encode second_database ≡ inr "second"
unfolding encode
encode_test = elim (AccountDatabase-discrete second_database second_database) [
  | yes p ↦ ground arith
  | no q ↦ absurd (q refl)
]

abbrev pub takes : WriteDisk
takes = record {
  has_parent = true;
  create_dir = none;
  open_file = none;
  write_all = none;
  left_over = "";
}

abbrev full : WriteDisk
full = record takes { write_all = some "No space left on device" }

abbrev m : Manager
m = record { disk = holds "first"; session_ttl = 100; database = first_database; sessions = [] }

loads_test : load_or_initialize_with_session_ttl crates 100 none takes 0 (holds "first") ≡ ok m
unfolding all_shut
loads_test = refl

abbrev pub calls : List Call
calls = creates "alice" "password1" 7 takes ∷ logins "alice" "password1" "token" 1000 ∷ []

abbrev session : SessionRecord
session = record { username = "alice"; expires_at = 1100 }

-- Alice is there and has logged in.
abbrev n : Manager
n = record {
  disk = holds "second";
  session_ttl = 100;
  database = second_database;
  sessions = ("token", session) ∷ [];
}

saves_test : persist_database crates takes (holds "first") second_database ≡ (ok tt, holds "second")
unfolding persist_database
saves_test = rw (encode_test, persist_database) refl

run_test : run crates m calls ≡ n
unfolding all_shut
run_test = rw saves_test refl

sessions_test :
    ((authenticate "token" 1099 n).0 ≡ ok (session_from_user "token" alice))
    × ((authenticate "token" 1100 n).0 ≡ missing)
    × ((authenticate "other" 1001 n).0 ≡ missing)
unfolding all_shut
sessions_test = (refl, refl, refl)

run-validate_database_example : validate_database (run crates m calls).database ≡ ok tt
run-validate_database_example =
    run-validate_database crates Decodes-crates 100 none takes 0 (holds "first") m loads_test calls

login_test :
    (login crates "alice" "password1" "second" 1050 n).0 ≡ ok (session_from_user "second" alice)
unfolding all_shut
login_test = refl

authenticate-login_example :
    (authenticate "second" 1149 (login crates "alice" "password1" "second" 1050 n).1).0
    ≡ ok (session_from_user "second" alice)
authenticate-login_example =
    authenticate-login crates "alice" "password1" "second" 1050 n (session_from_user "second" alice)
      login_test "second" 1149

saved_test : AllSaved crates m calls
unfolding all_shut
saved_test = (ap (λ s. s.0) saves_test, (tt, tt))

load-run_example :
    load_or_initialize_with_session_ttl crates 100 none takes 9 (run crates m calls).disk
    ≡ ok (record (run crates m calls) { sessions = []; session_ttl = 100 })
load-run_example =
    load-run crates Decodes-crates 100 none takes takes 0 9 (holds "first") m loads_test calls
      saved_test

token_test : lookup "token" n.sessions ≡ some session
unfolding all_shut
token_test = refl

-- Crates that write any database, for the theorems that do not read it back.
abbrev pub writers : Crates
writers = record crates { to_vec_pretty = λ db. inr "saved" }

persist_test :
    (disk : Disk) (db : AccountDatabase)
    → persist_database writers takes disk db ≡ (ok tt, holds "saved")
unfolding persist_database
persist_test disk db = refl

change_test : (change_own_password writers "alice" "password1" "password2" 8 takes n).0 ≡ ok tt
unfolding all_shut persist_database
change_test = refl

reset_test : (reset_password writers "alice" "password2" 8 takes n).0 ≡ ok tt
unfolding all_shut persist_database
reset_test = refl

delete_test : (delete_user writers "alice" takes n).0 ≡ ok tt
unfolding all_shut persist_database
delete_test = refl

authenticate-change_own_password_example :
    (authenticate "token" 1001
      (change_own_password writers "alice" "password1" "password2" 8 takes n).1).0
    ≡ missing
authenticate-change_own_password_example =
    authenticate-change_own_password writers "alice" "password1" "password2" 8 takes n change_test
      "token" session 1001 token_test

authenticate-reset_password_test :
    (authenticate "token" 1001 (reset_password writers "alice" "password2" 8 takes n).1).0 ≡ missing
authenticate-reset_password_test =
    authenticate-reset_password writers "alice" "password2" 8 takes n reset_test "token" session
      1001 token_test

authenticate-delete_user_test :
    (authenticate "token" 1001 (delete_user writers "alice" takes n).1).0 ≡ missing
authenticate-delete_user_test =
    (authenticate-delete_user writers "alice" takes n delete_test "token" session 1001 token_test).2

change_own_password-Opens_example :
    Opens writers "alice" "password2" false n
      (change_own_password writers "alice" "password1" "password2" 8 takes n).1
change_own_password-Opens_example =
    change_own_password-Opens writers Verifies-crates "alice" "password1" "password2" 8 takes n
      change_test

reset_password-Opens_test :
    Opens writers "alice" "password2" true n
      (reset_password writers "alice" "password2" 8 takes n).1
reset_password-Opens_test =
    reset_password-Opens writers Verifies-crates "alice" "password2" 8 takes n reset_test

abbrev no_space : AppError
no_space = storage_error "REMOTE_AUTH_WRITE_FAILED" "No space left on device"

unsaved_test :
    (persist_database writers full m.disk
      (record m.database { users = insert "alice" alice m.database.users })).0
    ≡ err no_space
unfolding persist_database
unsaved_test = refl

checks_test :
    (validate_username "alice" ≡ ok tt)
    × (validate_new_password "password1" ≡ ok tt)
    × (lookup "alice" m.database.users ≡ none)
    × (hash_password writers "password1" 7 ≡ ok "hash:password1")
unfolding all_shut
checks_test = (refl, refl, refl, refl)

create_user_unsaved_example :
    let (result, after) = create_user writers "alice" "password1" 7 full m in
    (result ≡ err no_space)
    × ((token : String) (now : ℕ)
        → (login writers "alice" "password1" token now after).0
          ≡ ok (session_from_user token alice))
    × ((salt' : ℕ) (w' : WriteDisk)
        → (create_user writers "alice" "password1" salt' w' after).0 ≡ err user_exists)
create_user_unsaved_example =
    create_user_unsaved writers "alice" "password1" "hash:password1" 7 full m no_space
      Verifies-crates checks_test.0 checks_test.1 checks_test.2 checks_test.3 unsaved_test
