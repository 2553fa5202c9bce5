-- ===== src/Trust/Safety.antt =====
-- Where trust comes from.
use webadbcontrol.Base.{
  ℕ, ◌≤◌, ◌≡◌, refl, ◌⊎◌, inl, inr, String, ◌==◌, true, Option, none, some, List, [], ◌∷◌, ◌++◌,
  arith, eq_iff, All, sym, ◌∙◌, ap, ◌≢◌, Option-cases, Bool-cases, ltb, if◌then◌else◌,
}
use webadbcontrol.Base.Text.{Text, text_eq-eq}
use webadbcontrol.Base.Map.{lookup, lookup-insert}
use webadbcontrol.Trust.Fingerprint.{normalize_fingerprint}
use webadbcontrol.Trust.{
  PairingRequest, PairingChallenge, TrustedDevice, TrustStore, Draw, begin_pairing, is_trusted,
  confirm_pairing, revoke_device, trust_from,
}
use webadbcontrol.Trust.Log.{Call, begins, confirms, revokes, Confirms, step, run}

abbrev pub revoke_at : ℕ → TrustedDevice → TrustedDevice
revoke_at now device = record device { revoked_at_unix_ms = some now }

abbrev pub revoke_entry : ℕ → Option TrustedDevice → Option TrustedDevice
revoke_entry now none = none
revoke_entry now (some device) = some (revoke_at now device)

-- What a device's entry in the map of trusted devices may become.
pub begin_pairing-trusted :
    (unicode_lower : ℕ → Text) (r : PairingRequest) (draw : Draw) (now : ℕ) (s : TrustStore)
    → (begin_pairing unicode_lower r draw now s).1.trusted_devices ≡ s.trusted_devices
unfolding begin_pairing
begin_pairing-trusted unicode_lower r draw now s = ground arith

pub confirm_pairing-trusted :
    (id code : String) (now : ℕ) (s : TrustStore) (d : String)
    → (lookup d (confirm_pairing id code now s).1.trusted_devices ≡ lookup d s.trusted_devices)
      ⊎ ((c : PairingChallenge) × Confirms s id code now c
          × (c.device_id ≡ d)
          × (lookup d (confirm_pairing id code now s).1.trusted_devices ≡ some (trust_from c now)))
unfolding confirm_pairing
confirm_pairing-trusted id code now s d = elim (Option-cases (lookup id s.pending_pairings)) [
  | inl e ↦ inl (ground arith)
  | inr (c, e) ↦ elim (Bool-cases (ltb c.expires_at_unix_ms now)) [
    | inl late ↦ inl (ground arith)
    | inr in_time ↦ elim (Bool-cases (c.short_code == code)) [
      | inr wrong ↦ inl (ground arith)
      | inl right ↦ elim (Bool-cases (c.device_id == d)) [
        | inr other ↦
            inl (ground (arith, lookup-insert c.device_id d (trust_from c now) s.trusted_devices))
        | inl same ↦ inr (
          c,
          record {
            pending = e;
            in_time = ground arith;
            right_code = (eq_iff c.short_code code).0 right;
          },
          (eq_iff c.device_id d).0 same,
          ground (arith, lookup-insert c.device_id d (trust_from c now) s.trusted_devices),
        )
      ]
    ]
  ]
]

pub revoke_device-trusted :
    (id : String) (now : ℕ) (s : TrustStore) (d : String)
    → lookup d (revoke_device id now s).1.trusted_devices ≡ (
        if id == d
        then revoke_entry now (lookup d s.trusted_devices)
        else lookup d s.trusted_devices)
unfolding revoke_device
revoke_device-trusted id now s d = elim (Option-cases (lookup id s.trusted_devices)) [
  | inl e ↦ elim (Bool-cases (id == d)) [
    | inl same ↦ ground (arith, eq_iff id d)
    | inr other ↦ ground arith
  ]
  | inr (v, e) ↦ ground (arith, eq_iff id d, lookup-insert id d (revoke_at now v) s.trusted_devices)
]

abbrev pub Spares : String → Call → Type 0
Spares d (revokes id now) = id ≢ d
Spares d _ = Unit

not_revoked_entry :
    (now : ℕ) (o : Option TrustedDevice) (v : TrustedDevice)
    → revoke_entry now o ≡ some v
    → v.revoked_at_unix_ms ≢ none
not_revoked_entry now none v e h = cc
not_revoked_entry now (some w) v e h = ground arith

module _ (unicode_lower : ℕ → Text) where
  -- The confirmation that the unrevoked entry `v` of the device `d` comes from.
  pub record Origin (log : List Call) (d : String) (v : TrustedDevice) : Type 0 where
    pub later : List Call
    pub earlier : List Call
    pub pairing_id : String
    pub code : String
    pub at : ℕ
    pub challenge : PairingChallenge
    pub split : log ≡ later ++ confirms pairing_id code at ∷ earlier
    pub confirmed : Confirms (run unicode_lower earlier) pairing_id code at challenge
    pub device : challenge.device_id ≡ d
    pub entry : v ≡ trust_from challenge at
    pub spared : All (Spares d) later

  Origin-later :
      {log : List Call} {d : String} {v : TrustedDevice} (call : Call)
      → Spares d call
      → Origin log d v
      → Origin (call ∷ log) d v
  Origin-later call spares o = record {
    later = call ∷ o.later;
    earlier = o.earlier;
    pairing_id = o.pairing_id;
    code = o.code;
    at = o.at;
    challenge = o.challenge;
    split = ap (◌∷◌ call) o.split;
    confirmed = o.confirmed;
    device = o.device;
    entry = o.entry;
    spared = (spares, o.spared);
  }

  entry-Origin :
      (log : List Call) (d : String) (v : TrustedDevice)
      → lookup d (run unicode_lower log).trusted_devices ≡ some v
      → v.revoked_at_unix_ms ≡ none
      → Origin log d v
  unfolding run step lookup
  entry-Origin [] d v e h = cc
  entry-Origin (begins r draw now ∷ log) d v e h = Origin-later (begins r draw now) tt (
      entry-Origin log d v
        (ground (arith, begin_pairing-trusted unicode_lower r draw now (run unicode_lower log))) h)
  entry-Origin (confirms id code now ∷ log) d v e h =
      elim (confirm_pairing-trusted id code now (run unicode_lower log) d) [
        | inl same ↦ Origin-later (confirms id code now) tt (entry-Origin log d v (sym same ∙ e) h)
        | inr (c, good, device, is) ↦ record {
          later = [];
          earlier = log;
          pairing_id = id;
          code = code;
          at = now;
          challenge = c;
          split = refl;
          confirmed = good;
          device = device;
          entry = cc;
          spared = tt;
        }
      ]
  entry-Origin (revokes id now ∷ log) d v e h = elim (Bool-cases (id == d)) [
    | inl same ↦ absurd (
        not_revoked_entry now (lookup d (run unicode_lower log).trusted_devices) v
          (ground (arith, revoke_device-trusted id now (run unicode_lower log) d)) h)
    | inr other ↦
        Origin-later (revokes id now) (λ e'. cc ((eq_iff id d).1 e'))
          (entry-Origin log d v
            (ground (arith, revoke_device-trusted id now (run unicode_lower log) d)) h)
  ]

  -- A device is trusted only if its pairing was confirmed with the right code, before the challenge
  -- expired and for this very certificate, not longer ago than the trust lasts, and if it has not
  -- been revoked since: whatever the history of calls on a fresh store.
  pub is_trusted-confirmed :
      (log : List Call) (d : String) (fingerprint : Text) (now : ℕ)
      → is_trusted unicode_lower d fingerprint now (run unicode_lower log) ≡ true
      → (v : TrustedDevice) × Origin log d v
        × (now ≤ v.expires_at_unix_ms)
        × (v.certificate_fingerprint_sha256 ≡ normalize_fingerprint unicode_lower fingerprint)
  unfolding is_trusted
  is_trusted-confirmed log d fingerprint now h =
      elim (Option-cases (lookup d (run unicode_lower log).trusted_devices)) [
        | inl e ↦ cc
        | inr (v, e) ↦ (
          v,
          entry-Origin log d v e (ground arith),
          ground arith,
          ground (
            arith,
            text_eq-eq v.certificate_fingerprint_sha256
                (normalize_fingerprint unicode_lower fingerprint),
          ),
        )
      ]
