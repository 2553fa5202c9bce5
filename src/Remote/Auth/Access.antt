-- ===== src/Remote/Auth/Access.antt =====
-- Assigning a device to an account: what the sessions that are already open see.
use webadbcontrol.Base.{ℕ, ◌≡◌, String, ◌==◌, Bool, some, if◌then◌else◌, is_some}
use webadbcontrol.Base.Map.{lookup, insert, remove}
use webadbcontrol.Error.{ok}
use webadbcontrol.Remote.Accounts.{StoredAccount, Crates, session_from_user}
use webadbcontrol.Remote.Storage.{Manager, SessionRecord, WriteDisk}
use webadbcontrol.Remote.Auth.{authenticate, set_device_access}
use webadbcontrol.Remote.Auth.Sessions.{live_session}

-- `set_device_access` answered `account`; the account `old` is the one it had.
pub record Assigned (crates : Crates) (u device : String) (assigned : Bool) (w : WriteDisk)
    (m : Manager) : Type 0 where
  pub old : StoredAccount
  pub updated : StoredAccount
  pub known : lookup u m.database.users ≡ some old
  pub only_devices : updated ≡ record old { devices = updated.devices }
  -- The device is in the set as asked, and every other device is as it was.
  pub devices :
      (d : String)
      → is_some (lookup d updated.devices)
        ≡ (if device == d then assigned else is_some (lookup d old.devices))
  -- A token of the account's sees the new set at once, and every other token sees what it saw.
  pub sees :
      (token : String) (r : SessionRecord) (now : ℕ)
      → live_session token now m ≡ some r
      → (authenticate token now (set_device_access crates u device assigned w m).1).0 ≡ (
          if u == r.username
          then ok (session_from_user token updated)
          else (authenticate token now m).0)

module _ (crates : Crates) where
  changed_devices : String → Bool → StoredAccount → StoredAccount
  changed_devices device assigned a = record a {
    devices = if assigned then insert device tt a.devices else remove device a.devices;
  }
