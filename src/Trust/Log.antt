-- ===== src/Trust/Log.antt =====
-- Any history of calls of the trust store, and what each call may do to the trust in a device.
use webadbcontrol.Base.{ℕ, ◌≤◌, ◌≡◌, String, some, List, [], ◌∷◌}
use webadbcontrol.Base.Text.{Text}
use webadbcontrol.Base.Map.{lookup}
use webadbcontrol.Trust.{
  PairingRequest, PairingChallenge, TrustStore, Draw, empty_store, begin_pairing, confirm_pairing,
  revoke_device,
}

pub data Call : Type 0 where
  begins : PairingRequest → Draw → ℕ → Call
  confirms : String → String → ℕ → Call
  revokes : String → ℕ → Call

-- A pairing that is confirmed: the code is right and the challenge has not expired.
pub record Confirms (s : TrustStore) (pairing_id code : String) (t : ℕ) (c : PairingChallenge)
    : Type 0 where
  pub pending : lookup pairing_id s.pending_pairings ≡ some c
  pub in_time : t ≤ c.expires_at_unix_ms
  pub right_code : c.short_code ≡ code

module _ (unicode_lower : ℕ → Text) where
  unfoldable pub step : TrustStore → Call → TrustStore
  step s (begins request draw now) = (begin_pairing unicode_lower request draw now s).1
  step s (confirms pairing_id code now) = (confirm_pairing pairing_id code now s).1
  step s (revokes device_id now) = (revoke_device device_id now s).1

  -- The newest call is at the head.
  unfoldable pub run : List Call → TrustStore
  run [] = empty_store
  run (call ∷ earlier) = step (run earlier) call
