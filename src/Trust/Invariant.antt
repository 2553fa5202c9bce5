-- ===== src/Trust/Invariant.antt =====
-- What holds of a trust store after any history of calls.
use webadbcontrol.Base.{
  ℕ, ◌≤◌, ◌-◌, ◌≡◌, refl, String, ◌==◌, false, some, List, [], ◌∷◌, arith, ltb, inl, inr,
  Option-cases, Bool-cases, eq_iff, add_u64,
}
use webadbcontrol.Base.Text.{Text, is_blank}
use webadbcontrol.Base.Map.{lookup, insert, remove, lookup-insert, lookup-remove}
use webadbcontrol.Base.Map.Unique.{Unique, insert-Unique}
use webadbcontrol.Error.{ok, Result-cases}
use webadbcontrol.Trust.Fingerprint.{validate_device_id, validate_fingerprint}
use webadbcontrol.Trust.Validity.{validate-normalize}
use webadbcontrol.Trust.{
  PairingRequest, PairingChallenge, TrustedDevice, TrustStore, Draw, begin_pairing, confirm_pairing,
  revoke_device, trust_from, pairing_ttl_ms, max_pairing_attempts, validate_request, challenge_for,
  wrong_code, accept_code, with_pending,
}
use webadbcontrol.Trust.Log.{Call, begins, confirms, revokes, step, run}

module _ (unicode_lower : ℕ → Text) where
  -- A challenge is stored under its id, has one to five attempts left, lasts five minutes, and names
  -- a device whose id and certificate passed the validations.
  pub record GoodChallenge (id : String) (c : PairingChallenge) : Type 0 where
    pub under_id : c.pairing_id ≡ id
    pub attempts_left : 1 ≤ c.attempts_remaining
    pub attempts_bounded : c.attempts_remaining ≤ max_pairing_attempts
    pub lasts : c.expires_at_unix_ms ≡ add_u64 c.created_at_unix_ms pairing_ttl_ms
    pub good_id : is_blank c.device_id ≡ false
    pub good_certificate :
        validate_fingerprint unicode_lower c.certificate_fingerprint_sha256 ≡ ok tt

  pub record GoodDevice (id : String) (d : TrustedDevice) : Type 0 where
    pub under_id : d.device_id ≡ id
    pub good_id : is_blank d.device_id ≡ false
    pub good_certificate :
        validate_fingerprint unicode_lower d.certificate_fingerprint_sha256 ≡ ok tt

  pub record IsValid (s : TrustStore) : Type 0 where
    pub challenges :
        (id : String) (c : PairingChallenge)
        → lookup id s.pending_pairings ≡ some c
        → GoodChallenge id c
    pub devices :
        (id : String) (d : TrustedDevice) → lookup id s.trusted_devices ≡ some d → GoodDevice id d
    pub distinct : Unique s.trusted_devices

  challenge_for-GoodChallenge :
      (r : PairingRequest) (draw : Draw) (now : ℕ)
      → validate_request unicode_lower r ≡ ok tt
      → GoodChallenge
          (challenge_for unicode_lower r draw now).pairing_id
          (challenge_for unicode_lower r draw now)
  unfolding challenge_for validate_request validate_device_id
  challenge_for-GoodChallenge r draw now h = record {
    under_id = refl;
    attempts_left = omega arith;
    attempts_bounded = omega arith;
    lasts = refl;
    good_id = ground arith;
    good_certificate =
        validate-normalize unicode_lower r.certificate_fingerprint_sha256 (ground arith);
  }

  begin_pairing-IsValid :
      (r : PairingRequest) (draw : Draw) (now : ℕ) (s : TrustStore)
      → IsValid s
      → IsValid (begin_pairing unicode_lower r draw now s).1
  unfolding begin_pairing
  begin_pairing-IsValid r draw now s v =
      let new = challenge_for unicode_lower r draw now in
      elim (Result-cases (validate_request unicode_lower r)) [
        | inr (e, bad) ↦ rw (bad, begin_pairing) v
        | inl (_, good) ↦
            rw (good, begin_pairing)
              (record {
                challenges = λ id c e. ground (
                  arith,
                  lookup-insert new.pairing_id id new s.pending_pairings,
                  eq_iff new.pairing_id id,
                  v.challenges id c,
                  challenge_for-GoodChallenge r draw now good,
                );
                devices = v.devices;
                distinct = v.distinct;
              })
      ]

  remove_pending-IsValid :
      (id : String) (s : TrustStore)
      → IsValid s
      → IsValid (with_pending s (remove id s.pending_pairings))
  remove_pending-IsValid id s v = record {
    challenges = λ j c e. v.challenges j c (ground (arith, lookup-remove id j s.pending_pairings));
    devices = v.devices;
    distinct = v.distinct;
  }

  wrong_code-IsValid :
      (id : String) (c : PairingChallenge) (s : TrustStore)
      → lookup id s.pending_pairings ≡ some c
      → IsValid s
      → IsValid (wrong_code id c s).1
  unfolding wrong_code
  wrong_code-IsValid id c s e v =
      let g = v.challenges id c e in
      let fewer = record c { attempts_remaining = c.attempts_remaining - 1 } in
      let counted = insert id fewer s.pending_pairings in
      record {
        challenges = λ j d e'. ground (
          arith,
          lookup-insert id j fewer s.pending_pairings,
          lookup-remove id j counted,
          eq_iff id j,
          v.challenges j d,
          g,
        );
        devices = v.devices;
        distinct = v.distinct;
      }

  accept_code-IsValid :
      (id : String) (c : PairingChallenge) (now : ℕ) (s : TrustStore)
      → lookup id s.pending_pairings ≡ some c
      → IsValid s
      → IsValid (accept_code id c now s).1
  unfolding accept_code trust_from
  accept_code-IsValid id c now s e v =
      let g = v.challenges id c e in
      record {
        challenges =
            λ j d e'. v.challenges j d (ground (arith, lookup-remove id j s.pending_pairings));
        devices = λ j d e'. ground (
          arith,
          lookup-insert c.device_id j (trust_from c now) s.trusted_devices,
          eq_iff c.device_id j,
          v.devices j d,
          g,
        );
        distinct = insert-Unique c.device_id (trust_from c now) s.trusted_devices v.distinct;
      }

  confirm_pairing-IsValid :
      (id code : String) (now : ℕ) (s : TrustStore)
      → IsValid s
      → IsValid (confirm_pairing id code now s).1
  unfolding confirm_pairing
  confirm_pairing-IsValid id code now s v = elim (Option-cases (lookup id s.pending_pairings)) [
    | inl e ↦ rw (e, confirm_pairing) v
    | inr (c, e) ↦ elim (Bool-cases (ltb c.expires_at_unix_ms now)) [
      | inl late ↦ rw (e, late, confirm_pairing) (remove_pending-IsValid id s v)
      | inr in_time ↦ elim (Bool-cases (c.short_code == code)) [
        | inl right ↦ rw (e, in_time, right, confirm_pairing) (accept_code-IsValid id c now s e v)
        | inr wrong ↦ rw (e, in_time, wrong, confirm_pairing) (wrong_code-IsValid id c s e v)
      ]
    ]
  ]

  revoke_device-IsValid :
      (id : String) (now : ℕ) (s : TrustStore) → IsValid s → IsValid (revoke_device id now s).1
  unfolding revoke_device
  revoke_device-IsValid id now s v = elim (Option-cases (lookup id s.trusted_devices)) [
    | inl e ↦ rw (e, revoke_device) v
    | inr (d, e) ↦
        let revoked = record d { revoked_at_unix_ms = some now } in
        rw (e, revoke_device)
          (record {
            challenges = v.challenges;
            devices = λ j d' e'. ground (
              arith,
              lookup-insert id j revoked s.trusted_devices,
              eq_iff id j,
              v.devices j d',
              v.devices id d e,
            );
            distinct = insert-Unique id revoked s.trusted_devices v.distinct;
          })
  ]

  -- Whatever the calls, from a fresh store: every pending challenge is stored under its id, has one to five
  -- attempts left and the five minutes of a pairing; every device, pending or trusted, has an id that is not blank
  -- and a valid certificate fingerprint; and no device is stored twice.
  pub run-IsValid : (log : List Call) → IsValid (run unicode_lower log)
  unfolding run step lookup
  run-IsValid [] = record { challenges = λ id c e. cc; devices = λ id d e. cc; distinct = tt }
  run-IsValid (begins r draw now ∷ log) = begin_pairing-IsValid r draw now _ (run-IsValid log)
  run-IsValid (confirms id code now ∷ log) = confirm_pairing-IsValid id code now _ (run-IsValid log)
  run-IsValid (revokes id now ∷ log) = revoke_device-IsValid id now _ (run-IsValid log)
