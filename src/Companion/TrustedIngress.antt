-- ===== src/Companion/TrustedIngress.antt =====
-- companion/trusted_ingress.rs: the trust check in front of an ingress that stores media. The trust
-- store and the clock's time are those of the ingress's making.
pub mod Guard
use webadbcontrol.Base.{
  ℕ, String, Bool, true, false, not, Option, none, some, List, [], ◌∷◌, if◌then◌else◌, ◌⊎◌, inl,
  inr,
}
use webadbcontrol.Base.Text.{Text, codes}
use webadbcontrol.Error.{AppError, new, Result, ok, err, ◌>>=◌, ◌>>◌, or_fail, fail_if}
use webadbcontrol.Companion.Ingress.{
  CompanionIngress, optional_text, ingress_handle_envelope, handle_json_bytes,
}
use webadbcontrol.Companion.Live.{is_hello}
use webadbcontrol.Companion.MediaStore.{text_field}
use webadbcontrol.Companion.Protocol.{
  QuicMessageKind, control, error, companion_protocol, companion_protocol_version,
}
use webadbcontrol.Companion.Session.{SerdeJson}
use webadbcontrol.Companion.Session.Handlers.{Envelope}
use webadbcontrol.Trust.{TrustStore, is_trusted}

pub record TrustedCompanionIngress : Type 0 where
  pub ingress : CompanionIngress
  pub trust_store : TrustStore
  pub now_unix_ms : ℕ

unfoldable pub trust_error : String → String → Bool → AppError
unfolding new
trust_error error_code message recoverable =
    new error_code message "companion.trusted_ingress" recoverable

unfoldable pub trust_device_id_missing : AppError
unfolding trust_error
trust_device_id_missing =
    trust_error "COMPANION_TRUST_DEVICE_ID_MISSING"
      "Trusted companion messages require deviceId after hello." false

unfoldable pub fingerprint_missing : AppError
unfolding trust_error
fingerprint_missing =
    trust_error "COMPANION_TRUST_FINGERPRINT_MISSING"
      "Trusted companion messages require certificateFingerprintSha256 in payload." false

unfoldable pub device_not_trusted : AppError
unfolding trust_error
device_not_trusted =
    trust_error "COMPANION_DEVICE_NOT_TRUSTED"
      "Companion device is not trusted for this certificate fingerprint." true

-- `unicode_lower` is the standard library's table, which the trust store reads.
module _ (unicode_lower : ℕ → Text) (J : SerdeJson) where
  abbrev pub required_trust : Envelope J → TrustedCompanionIngress → Result (Unit {0})
  required_trust envelope trusted = do
    device_id ← or_fail envelope.device_id trust_device_id_missing
    fingerprint ←
        or_fail (text_field J envelope.payload "certificateFingerprintSha256") fingerprint_missing
    fail_if
        (not (
          is_trusted unicode_lower device_id (codes fingerprint) trusted.now_unix_ms
            trusted.trust_store))
        device_not_trusted

  unfoldable pub enforce_trust : Envelope J → TrustedCompanionIngress → Result (Unit {0})
  enforce_trust envelope trusted =
      if is_hello envelope.kind then ok tt else required_trust envelope trusted

  unfoldable pub trusted_handle_envelope :
      Envelope J → TrustedCompanionIngress → Result (Envelope J) × TrustedCompanionIngress
  trusted_handle_envelope envelope trusted = elim (enforce_trust envelope trusted) [
    | err e ↦ (err e, trusted)
    | ok _ ↦
        let (answer, after) = ingress_handle_envelope J envelope trusted.ingress in
        (ok answer, record trusted { ingress = after })
  ]

  -- `ingress_error_bytes`, before it is encoded.
  abbrev pub refusal : AppError → Envelope J
  refusal e = record {
    protocol = companion_protocol;
    version = companion_protocol_version;
    message_id = "trusted-ingress-error";
    trace_id = none;
    device_id = none;
    channel = control;
    kind = error;
    payload = J.object (
        ("errorCode", J.text e.error_code)
        ∷ ("message", J.text e.message)
        ∷ ("module", J.text e.module_name)
        ∷ ("recoverable", J.boolean e.recoverable)
        ∷ ("suggestion", optional_text J e.suggestion)
        ∷ []);
  }

  abbrev answered : Result (Envelope J) → Envelope J
  answered (ok response) = response
  answered (err e) = refusal e

  unfoldable pub trusted_handle_json_bytes :
      String → TrustedCompanionIngress → Envelope J × TrustedCompanionIngress
  trusted_handle_json_bytes bytes trusted = elim (J.envelope_from_slice bytes) [
    | inr envelope ↦
        let (response, after) = trusted_handle_envelope envelope trusted in
        (answered response, after)
    | inl cause ↦
        let (response, after) = handle_json_bytes J bytes trusted.ingress in
        (response, record trusted { ingress = after })
  ]
