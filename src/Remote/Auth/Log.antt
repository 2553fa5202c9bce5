-- ===== src/Remote/Auth/Log.antt =====
-- Any history of calls of the account manager.
use webadbcontrol.Base.{ℕ, String, Bool, List, [], ◌∷◌}
use webadbcontrol.Remote.Accounts.{Crates}
use webadbcontrol.Remote.Storage.{Manager, WriteDisk}
use webadbcontrol.Remote.Auth.{
  login, authenticate, logout, create_user, delete_user, change_own_password, reset_password,
  set_device_access,
}

pub data Call : Type 0 where
  logins : String → String → String → ℕ → Call
  authenticates : String → ℕ → Call
  logouts : String → Call
  creates : String → String → ℕ → WriteDisk → Call
  deletes : String → WriteDisk → Call
  changes : String → String → String → ℕ → WriteDisk → Call
  resets : String → String → ℕ → WriteDisk → Call
  assigns : String → String → Bool → WriteDisk → Call

module _ (crates : Crates) where
  unfoldable pub step : Manager → Call → Manager
  step m (logins username password token now) = (login crates username password token now m).1
  step m (authenticates token now) = (authenticate token now m).1
  step m (logouts token) = logout token m
  step m (creates username password salt w) = (create_user crates username password salt w m).1
  step m (deletes username w) = (delete_user crates username w m).1
  step m (changes username old new salt w) =
      (change_own_password crates username old new salt w m).1
  step m (resets username new salt w) = (reset_password crates username new salt w m).1
  step m (assigns username device assigned w) =
      (set_device_access crates username device assigned w m).1

  -- Oldest call first.
  unfoldable pub run : Manager → List Call → Manager
  run m [] = m
  run m (call ∷ calls) = run (step m call) calls
