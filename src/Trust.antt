-- ===== src/Trust.antt =====
-- companion/trust.rs: `CompanionTrustStore`. A method that takes `&mut self` returns its result and
-- the new store. The drawn random numbers are arguments. Times are `u64` milliseconds.
pub mod Fingerprint
pub mod Log
pub mod Safety
mod Tests
pub mod Pairing
pub mod Invariant
pub mod Store
pub mod Validity
pub mod Attempts
use webadbcontrol.Base.{
  ℕ, ◌-◌, ◌*◌, String, ◌<>◌, ◌==◌, Bool, true, false, not, ◌&&◌, Option, none, some, List, [], ◌∷◌,
  ltb, leb, ◌==ℕ◌, add_u64, if◌then◌else◌, is_some,
}
use webadbcontrol.Base.Text.{Text, text_eq, hex_padded, dec_padded, show_ℕ}
use webadbcontrol.Base.Map.{Map, lookup, insert, remove, values}
use webadbcontrol.Error.{AppError, new, with_suggestion, with_cause, Result, ok, err, ◌>>=◌, ◌>>◌}
use Fingerprint.{validate_device_id, validate_fingerprint, normalize_fingerprint}

abbrev pub trust_store_schema_version : ℕ
trust_store_schema_version = 1

abbrev pub pairing_ttl_ms : ℕ
pairing_ttl_ms = 5 * 60 * 1000

abbrev pub trust_ttl_ms : ℕ
trust_ttl_ms = 30 * 24 * 60 * 60 * 1000

abbrev pub max_pairing_attempts : ℕ
max_pairing_attempts = 5

pub record PairingRequest : Type 0 where
  pub device_id : String
  pub device_name : String
  pub certificate_fingerprint_sha256 : Text

pub record PairingChallenge : Type 0 where
  pub pairing_id : String
  pub device_id : String
  pub device_name : String
  pub certificate_fingerprint_sha256 : Text
  pub short_code : String
  pub created_at_unix_ms : ℕ
  pub expires_at_unix_ms : ℕ
  pub attempts_remaining : ℕ

pub record TrustedDevice : Type 0 where
  pub device_id : String
  pub device_name : String
  pub certificate_fingerprint_sha256 : Text
  pub trusted_at_unix_ms : ℕ
  pub expires_at_unix_ms : ℕ
  pub revoked_at_unix_ms : Option ℕ

pub record TrustStore : Type 0 where
  pub pending_pairings : Map PairingChallenge
  pub trusted_devices : Map TrustedDevice

abbrev pub empty_store : TrustStore
empty_store = record { pending_pairings = []; trusted_devices = [] }

abbrev pub with_pending : TrustStore → Map PairingChallenge → TrustStore
with_pending s p = record s { pending_pairings = p }

unfoldable pub pairing_not_found : AppError
unfolding new
pairing_not_found =
    new "COMPANION_PAIRING_NOT_FOUND"
      "Companion pairing challenge does not exist or has already been consumed." "companion.trust"
      true

unfoldable pub pairing_expired : AppError
unfolding new
pairing_expired =
    new "COMPANION_PAIRING_EXPIRED" "Companion pairing challenge has expired." "companion.trust"
      true

unfoldable pub code_mismatch : ℕ → AppError
unfolding new with_suggestion show_ℕ
code_mismatch attempts_remaining =
    with_suggestion
      (new "COMPANION_PAIRING_CODE_MISMATCH" "Companion pairing short code does not match."
        "companion.trust" true)
      ("Pairing attempts remaining: " <> show_ℕ attempts_remaining)

unfoldable pub device_not_found : AppError
unfolding new
device_not_found =
    new "COMPANION_TRUST_DEVICE_NOT_FOUND" "Trusted companion device does not exist."
      "companion.trust" true

-- `rand::rng().random::<u64>()` and `rand::random_range(0..1_000_000_u32)`.
pub record Draw : Type 0 where
  pub id_bits : ℕ
  pub code_number : ℕ

module _ (unicode_lower : ℕ → Text) where
  challenge_for : PairingRequest → Draw → ℕ → PairingChallenge
  unfolding hex_padded dec_padded
  challenge_for request draw now = record {
    pairing_id = "pair-" <> hex_padded 16 draw.id_bits;
    device_id = request.device_id;
    device_name = request.device_name;
    certificate_fingerprint_sha256 =
        normalize_fingerprint unicode_lower request.certificate_fingerprint_sha256;
    short_code = dec_padded 6 draw.code_number;
    created_at_unix_ms = now;
    expires_at_unix_ms = add_u64 now pairing_ttl_ms;
    attempts_remaining = max_pairing_attempts;
  }

  -- The two validations, in order.
  validate_request : PairingRequest → Result (Unit {0})
  validate_request request = do
    validate_device_id request.device_id
    validate_fingerprint unicode_lower request.certificate_fingerprint_sha256

  unfoldable pub begin_pairing :
      PairingRequest → Draw → ℕ → TrustStore → Result PairingChallenge × TrustStore
  unfolding challenge_for validate_request
  begin_pairing request draw now s = elim (validate_request request) [
    | err e ↦ (err e, s)
    | ok _ ↦
        let challenge = challenge_for request draw now in
        (ok challenge, with_pending s (insert challenge.pairing_id challenge s.pending_pairings))
  ]

  unfoldable pub is_trusted : String → Text → ℕ → TrustStore → Bool
  is_trusted device_id fingerprint now s = elim (lookup device_id s.trusted_devices) [
    | none ↦ false
    | some device ↦
        not (is_some device.revoked_at_unix_ms)
        && leb now device.expires_at_unix_ms
        && text_eq device.certificate_fingerprint_sha256
            (normalize_fingerprint unicode_lower fingerprint)
  ]

-- A wrong code: the attempt is counted (`saturating_sub`), and the last one removes the challenge.
wrong_code : String → PairingChallenge → TrustStore → Result TrustedDevice × TrustStore
wrong_code pairing_id challenge s =
    let left = challenge.attempts_remaining - 1 in
    let counted =
      insert pairing_id (record challenge { attempts_remaining = left }) s.pending_pairings in
    (
      err (code_mismatch left),
      with_pending s (if left ==ℕ 0 then remove pairing_id counted else counted),
    )

unfoldable pub trust_from : PairingChallenge → ℕ → TrustedDevice
trust_from challenge now = record {
  device_id = challenge.device_id;
  device_name = challenge.device_name;
  certificate_fingerprint_sha256 = challenge.certificate_fingerprint_sha256;
  trusted_at_unix_ms = now;
  expires_at_unix_ms = add_u64 now trust_ttl_ms;
  revoked_at_unix_ms = none;
}

accept_code : String → PairingChallenge → ℕ → TrustStore → Result TrustedDevice × TrustStore
unfolding trust_from
accept_code pairing_id challenge now s =
    let trusted = trust_from challenge now in
    (
      ok trusted,
      record {
        pending_pairings = remove pairing_id s.pending_pairings;
        trusted_devices = insert trusted.device_id trusted s.trusted_devices;
      },
    )

unfoldable pub confirm_pairing :
    String → String → ℕ → TrustStore → Result TrustedDevice × TrustStore
unfolding wrong_code accept_code
confirm_pairing pairing_id short_code now s = elim (lookup pairing_id s.pending_pairings) [
  | none ↦ (err pairing_not_found, s)
  | some challenge ↦
      if ltb challenge.expires_at_unix_ms now
      then (err pairing_expired, with_pending s (remove pairing_id s.pending_pairings))
      else if not (challenge.short_code == short_code)
      then wrong_code pairing_id challenge s
      else accept_code pairing_id challenge now s
]

unfoldable pub revoke_device : String → ℕ → TrustStore → Result TrustedDevice × TrustStore
revoke_device device_id now s = elim (lookup device_id s.trusted_devices) [
  | none ↦ (err device_not_found, s)
  | some device ↦
      let revoked = record device { revoked_at_unix_ms = some now } in
      (ok revoked, record s { trusted_devices = insert device_id revoked s.trusted_devices })
]
