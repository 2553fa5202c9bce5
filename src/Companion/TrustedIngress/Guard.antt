-- ===== src/Companion/TrustedIngress/Guard.antt =====
-- Whose messages pass the trust check.
use webadbcontrol.Base.{
  ℕ, ◌≤◌, ◌≡◌, ◌⊎◌, inl, inr, String, true, false, some, List, arith, Option-cases, Bool-cases,
}
use webadbcontrol.Base.Text.{Text, codes}
use webadbcontrol.Error.{AppError, err}
use webadbcontrol.Companion.Live.{is_hello}
use webadbcontrol.Companion.MediaStore.{text_field}
use webadbcontrol.Companion.Session.{SerdeJson}
use webadbcontrol.Companion.Session.Handlers.{Envelope}
use webadbcontrol.Companion.TrustedIngress.{
  TrustedCompanionIngress, trust_device_id_missing, fingerprint_missing, device_not_trusted,
  enforce_trust, trusted_handle_envelope,
}
use webadbcontrol.Trust.{TrustedDevice, is_trusted}
use webadbcontrol.Trust.Fingerprint.{normalize_fingerprint}
use webadbcontrol.Trust.Log.{Call, run}
use webadbcontrol.Trust.Safety.{Origin, is_trusted-confirmed}

module _ (unicode_lower : ℕ → Text) (J : SerdeJson) where
  -- The trusted device whose id and certificate the envelope carries.
  pub record Vouched (log : List Call) (now : ℕ) (envelope : Envelope J) : Type 0 where
    pub device_id : String
    pub fingerprint : String
    pub device : TrustedDevice
    pub named : envelope.device_id ≡ some device_id
    pub carried : text_field J envelope.payload "certificateFingerprintSha256" ≡ some fingerprint
    pub origin : Origin unicode_lower log device_id device
    pub lasting : now ≤ device.expires_at_unix_ms
    pub certificate :
        device.certificate_fingerprint_sha256
        ≡ normalize_fingerprint unicode_lower (codes fingerprint)

  trusted-Vouched :
      (log : List Call) (now : ℕ) (envelope : Envelope J) (device_id fingerprint : String)
      → envelope.device_id ≡ some device_id
      → text_field J envelope.payload "certificateFingerprintSha256" ≡ some fingerprint
      → is_trusted unicode_lower device_id (codes fingerprint) now (run unicode_lower log) ≡ true
      → Vouched log now envelope
  trusted-Vouched log now envelope device_id fingerprint named carried h =
      let (device, origin, lasting, certificate) =
        is_trusted-confirmed unicode_lower log device_id (codes fingerprint) now h in
      record {
        device_id = device_id;
        fingerprint = fingerprint;
        device = device;
        named = named;
        carried = carried;
        origin = origin;
        lasting = lasting;
        certificate = certificate;
      }

  -- When the trust store went through any history of calls, a message other than hello is refused and
  -- changes nothing, or it carries the id and the certificate fingerprint of a device whose pairing
  -- was confirmed, that was not revoked since, and whose trust has not expired.
  pub trusted_handle_envelope-Vouched :
      (log : List Call) (envelope : Envelope J) (trusted : TrustedCompanionIngress)
      → trusted.trust_store ≡ run unicode_lower log
      → is_hello envelope.kind ≡ false
      → ((e : AppError) × (trusted_handle_envelope unicode_lower J envelope trusted
            ≡ (err e, trusted)))
        ⊎ Vouched log trusted.now_unix_ms envelope
  unfolding trusted_handle_envelope enforce_trust
  trusted_handle_envelope-Vouched log envelope trusted history other =
      elim (Option-cases envelope.device_id) [
        | inl missing ↦ inl (trust_device_id_missing, ground arith)
        | inr (device_id, named) ↦
            elim (Option-cases (text_field J envelope.payload "certificateFingerprintSha256")) [
              | inl missing ↦ inl (fingerprint_missing, ground arith)
              | inr (fingerprint, carried) ↦
                  elim (Bool-cases (
                    is_trusted unicode_lower device_id (codes fingerprint) trusted.now_unix_ms
                      trusted.trust_store)) [
                        | inr refused ↦ inl (device_not_trusted, ground arith)
                        | inl passed ↦ inr (
                            trusted-Vouched log trusted.now_unix_ms envelope device_id fingerprint
                              named carried (rw (← history) passed))
                      ]
            ]
      ]
