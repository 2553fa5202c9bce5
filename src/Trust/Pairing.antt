-- ===== src/Trust/Pairing.antt =====
-- A pairing from its beginning to the trust in the device, and the end of that trust.
use webadbcontrol.Base.{
  ℕ, ◌≤◌, ◌≡◌, ◌↔◌, String, ◌==◌, false, ◌&&◌, none, some, arith, leb, if◌then◌else◌, Option-cases,
  eq_iff, eq_refl, add_u64, inl, inr,
}
use webadbcontrol.Base.Text.{Text, text_eq}
use webadbcontrol.Base.Map.{lookup, lookup-insert, lookup-remove}
use webadbcontrol.Error.{ok, err}
use webadbcontrol.Trust.Fingerprint.{normalize_fingerprint}
use webadbcontrol.Trust.{
  PairingRequest, PairingChallenge, TrustStore, Draw, begin_pairing, is_trusted, confirm_pairing,
  revoke_device, device_not_found, trust_from, trust_ttl_ms, challenge_for,
}

module _ (unicode_lower : ℕ → Text) where
  begin_pairing-ok :
      (r : PairingRequest) (draw : Draw) (now : ℕ) (s : TrustStore) (c : PairingChallenge)
      → (begin_pairing unicode_lower r draw now s).0 ≡ ok c
      → (c ≡ challenge_for unicode_lower r draw now)
        × (lookup c.pairing_id (begin_pairing unicode_lower r draw now s).1.pending_pairings
            ≡ some c)
        × ((begin_pairing unicode_lower r draw now s).1.trusted_devices ≡ s.trusted_devices)
  unfolding begin_pairing
  begin_pairing-ok r draw now s c h =
      let new = challenge_for unicode_lower r draw now in
      ground (
        arith,
        lookup-insert new.pairing_id new.pairing_id new s.pending_pairings,
        eq_refl new.pairing_id,
      )

  -- A pairing that has begun is confirmed by its short code until it expires. Then its challenge is
  -- used up; the device is trusted for its certificate, whatever the spelling of the fingerprint,
  -- until the trust runs out; and for every other device nothing has changed.
  pub confirm-begin :
      (r : PairingRequest) (draw : Draw) (now t : ℕ) (s : TrustStore) (c : PairingChallenge)
      → (begin_pairing unicode_lower r draw now s).0 ≡ ok c
      → t ≤ c.expires_at_unix_ms
      → let (result, after) =
          confirm_pairing c.pairing_id c.short_code t
            (begin_pairing unicode_lower r draw now s).1 in
        (result ≡ ok (trust_from c t))
        × (lookup c.pairing_id after.pending_pairings ≡ none)
        × ((d : String) (f : Text) (u : ℕ)
            → is_trusted unicode_lower d f u after ≡ (
                if r.device_id == d
                then leb u (add_u64 t trust_ttl_ms)
                  && text_eq
                      (normalize_fingerprint unicode_lower r.certificate_fingerprint_sha256)
                      (normalize_fingerprint unicode_lower f)
                else is_trusted unicode_lower d f u s))
  unfolding confirm_pairing is_trusted challenge_for
  confirm-begin r draw now t s c h in_time =
      let begun = (begin_pairing unicode_lower r draw now s).1 in
      let (is, pending, trusted) = begin_pairing-ok r draw now s c h in
      (
        ground (arith, eq_refl c.short_code),
        ground (
          arith,
          eq_refl c.short_code,
          lookup-remove c.pairing_id c.pairing_id begun.pending_pairings,
          eq_refl c.pairing_id,
        ),
        λ d f u. ground (
          arith,
          eq_refl c.short_code,
          lookup-insert c.device_id d (trust_from c t) begun.trusted_devices,
        ),
      )

  -- Revoking fails exactly for a device that has no entry. Afterwards the device is trusted at no
  -- time and for no certificate, and for every other device nothing has changed.
  pub is_trusted-revoke :
      (id : String) (now : ℕ) (s : TrustStore)
      → let (result, after) = revoke_device id now s in
        ((result ≡ err device_not_found) ↔ (lookup id s.trusted_devices ≡ none))
        × ((d : String) (f : Text) (u : ℕ)
            → is_trusted unicode_lower d f u after
              ≡ (if id == d then false else is_trusted unicode_lower d f u s))
  unfolding revoke_device is_trusted
  is_trusted-revoke id now s = elim (Option-cases (lookup id s.trusted_devices)) [
    | inl e ↦ ((λ _. e, λ _. ground arith), λ d f u. ground (arith, eq_iff id d))
    | inr (v, e) ↦
        let revoked = record v { revoked_at_unix_ms = some now } in
        (
          ((λ h. ground arith), (λ h. ground arith)),
          λ d f u. ground (arith, lookup-insert id d revoked s.trusted_devices),
        )
  ]
