-- ===== src/Remote/Auth/Invariant.antt =====
-- The invariant of the account manager, and the changes of the state that keep it.
use webadbcontrol.Base.{◌≡◌, String, ◌==◌, Bool, true, false, some, arith, is_some, eq_iff}
use webadbcontrol.Base.Map.{
  Map, lookup, insert, remove, retain, lookup-insert, lookup-remove, lookup-retain,
}
use webadbcontrol.Remote.Accounts.{
  StoredAccount, is_builtin_admin, database_version, default_admin_username,
}
use webadbcontrol.Remote.Storage.{Manager, SessionRecord, with_users}
use webadbcontrol.Remote.Auth.{not_of, with_sessions, replace_account, drop_account}

abbrev pub HasAccount : Map StoredAccount → SessionRecord → Type 0
HasAccount users r = is_some (lookup r.username users) ≡ true

-- The database passes the check that is made when it is loaded, and every session belongs to an
-- account.
pub record IsValid (m : Manager) : Type 0 where
  pub version : m.database.version ≡ database_version
  pub administrator : is_builtin_admin (lookup default_admin_username m.database.users) ≡ true
  pub owned :
      (token : String) (r : SessionRecord)
      → lookup token m.sessions ≡ some r
      → HasAccount m.database.users r

-- A new entry for an account that keeps its role and its mark.
module _ (username : String) (a b : StoredAccount) (m : Manager)
    (old : lookup username m.database.users ≡ some a) (same_role : b.role ≡ a.role)
    (same_mark : b.built_in ≡ a.built_in) where
  pub with_users-IsValid : IsValid m → IsValid (with_users m (insert username b m.database.users))
  with_users-IsValid v = record {
    version = v.version;
    administrator = ground (
      arith,
      v.administrator,
      lookup-insert username default_admin_username b m.database.users,
      eq_iff username default_admin_username,
    );
    owned = λ token r e.
        ground (arith, v.owned token r, lookup-insert username r.username b m.database.users);
  }

  pub replace_account-IsValid : IsValid m → IsValid (replace_account username b m)
  replace_account-IsValid v =
      let w = with_users-IsValid v in
      record {
        version = w.version;
        administrator = w.administrator;
        owned = λ token r e.
            w.owned token r (ground (arith, lookup-retain (not_of username) token m.sessions));
      }

pub drop_account-IsValid :
    (username : String) (m : Manager)
    → (username == default_admin_username) ≡ false
    → IsValid m
    → IsValid (drop_account username m)
drop_account-IsValid username m other v = record {
  version = v.version;
  administrator = ground (arith, lookup-remove username default_admin_username m.database.users);
  owned = λ token r e. ground (
    arith,
    v.owned token r,
    lookup-retain (not_of username) token m.sessions,
    lookup-remove username r.username m.database.users,
    eq_iff username r.username,
    eq_iff r.username username,
  );
}

pub insert_session-IsValid :
    (token : String) (r : SessionRecord) (m : Manager)
    → HasAccount m.database.users r
    → IsValid m
    → IsValid (with_sessions m (insert token r m.sessions))
insert_session-IsValid token r m known v = record {
  version = v.version;
  administrator = v.administrator;
  owned = λ t q e. ground (arith, v.owned t q, lookup-insert token t r m.sessions);
}

pub remove_session-IsValid :
    (token : String) (m : Manager) → IsValid m → IsValid (with_sessions m (remove token m.sessions))
remove_session-IsValid token m v = record {
  version = v.version;
  administrator = v.administrator;
  owned = λ t q e. v.owned t q (ground (arith, lookup-remove token t m.sessions));
}

pub retain_sessions-IsValid :
    (p : String → SessionRecord → Bool) (m : Manager)
    → IsValid m
    → IsValid (with_sessions m (retain p m.sessions))
retain_sessions-IsValid p m v = record {
  version = v.version;
  administrator = v.administrator;
  owned = λ t q e. v.owned t q (ground (arith, lookup-retain p t m.sessions));
}
