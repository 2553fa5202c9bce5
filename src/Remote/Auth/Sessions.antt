-- ===== src/Remote/Auth/Sessions.antt =====
-- Which tokens authenticate, after a login and after any history of calls.
use webadbcontrol.Base.{
  ℕ, ◌+◌, ◌≡◌, String, ◌==◌, Option, none, some, List, arith, ltb, if◌then◌else◌, inl, inr, eq_iff,
}
use webadbcontrol.Base.Map.{Map, lookup, insert, kept, lookup-insert, lookup-retain}
use webadbcontrol.Error.{Result, ok, err, Result-cases}
use webadbcontrol.Remote.Accounts.{
  AuthenticatedSession, StoredAccount, Crates, session_invalid, session_from_user,
  validate_database,
}
use webadbcontrol.Remote.Storage.{
  Manager, SessionRecord, WriteDisk, Disk, load_or_initialize_with_session_ttl,
}
use webadbcontrol.Remote.Storage.Loading.{Decodes, load_or_initialize_lem, validate_database-ok}
use webadbcontrol.Remote.Auth.{unexpired, login, authenticate, find_session, check_login}
use webadbcontrol.Remote.Auth.Invariant.{IsValid}
use webadbcontrol.Remote.Auth.Preserved.{run-IsValid}
use webadbcontrol.Remote.Auth.Log.{Call, run}

abbrev pub missing : Result AuthenticatedSession
missing = err (session_invalid "Remote session is missing, expired, or revoked.")

-- The session of a token, if it is there and has not expired.
abbrev pub live_session : String → ℕ → Manager → Option SessionRecord
live_session token now m = kept (unexpired now) token (lookup token m.sessions)

abbrev pub answer_of :
    String → Map StoredAccount → Option SessionRecord → Result AuthenticatedSession
answer_of token users none = missing
answer_of token users (some r) = elim (lookup r.username users) [
  | none ↦ err (session_invalid "Remote session account no longer exists.")
  | some account ↦ ok (session_from_user token account)
]

-- What a request with a token gets.
pub authenticate_lem :
    (token : String) (now : ℕ) (m : Manager)
    → (authenticate token now m).0 ≡ answer_of token m.database.users (live_session token now m)
unfolding authenticate find_session
authenticate_lem token now m = ground (arith, lookup-retain (unexpired now) token m.sessions)

loaded-IsValid :
    (crates : Crates) (ttl : ℕ) (read : Option String) (w : WriteDisk) (salt : ℕ) (disk : Disk)
    (m : Manager)
    → Decodes crates
    → load_or_initialize_with_session_ttl crates ttl read w salt disk ≡ ok m
    → IsValid m
unfolding lookup
loaded-IsValid crates ttl read w salt disk m decodes h =
    let (empty, _, valid, _) = load_or_initialize_lem crates ttl read w salt disk m decodes h in
    let (version, administrator) = (validate_database-ok m.database).0 valid in
    record {
      version = version;
      administrator = administrator;
      owned = λ token r e. absurd (ground arith);
    }

module _ (crates : Crates) (decodes : Decodes crates) (ttl : ℕ) (read : Option String)
    (w : WriteDisk) (salt : ℕ) (disk : Disk) (m : Manager)
    (loads : load_or_initialize_with_session_ttl crates ttl read w salt disk ≡ ok m) where
  -- From a manager that was loaded or initialised, whatever the calls: the built-in administrator
  -- stays in the database, which passes the check of loading, so Core can start from it again.
  pub run-validate_database :
      (calls : List Call) → validate_database (run crates m calls).database ≡ ok tt
  run-validate_database calls =
      let v =
        run-IsValid crates m calls (loaded-IsValid crates ttl read w salt disk m decodes loads) in
      (validate_database-ok (run crates m calls).database).1 (v.version, v.administrator)

-- The token of a successful login authenticates, as the same session, until the time to live is
-- over; every other token gets what it got before.
pub authenticate-login :
    (crates : Crates) (username password token : String) (now : ℕ) (m : Manager)
    (s : AuthenticatedSession)
    → (login crates username password token now m).0 ≡ ok s
    → (t : String) (later : ℕ)
    → (authenticate t later (login crates username password token now m).1).0 ≡ (
        if token == t
        then (if ltb later (now + m.session_ttl) then ok s else missing)
        else (authenticate t later m).0)
unfolding login check_login
authenticate-login crates username password token now m s h t later =
    elim (Result-cases (check_login crates username password m)) [
      | inr (e, bad) ↦ absurd (ground arith)
      | inl (a, good) ↦
          let opened : SessionRecord = record {
            username = username;
            expires_at = now + m.session_ttl;
          } in
          ground (
            arith,
            authenticate_lem t later m,
            authenticate_lem t later (record m { sessions = insert token opened m.sessions }),
            lookup-insert token t opened m.sessions,
            eq_iff token t,
          )
    ]
