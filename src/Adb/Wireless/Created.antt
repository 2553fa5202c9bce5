-- ===== src/Adb/Wireless/Created.antt =====
-- How long a QR code is honoured.
use webadbcontrol.Base.{
  ℕ, ◌+◌, ◌≤◌, ◌≡◌, String, ◌==◌, ◌<>◌, ltb, if◌then◌else◌, arith, inl, inr, ◌⊎◌,
}
use webadbcontrol.Base.Map.{insert, retain, lookup-insert, lookup-retain}
use webadbcontrol.Error.{ok, err, Result-cases}
use webadbcontrol.Adb.Wireless.{
  PendingPairing, WirelessPairingManager, WirelessPairingQr, QrCode, QrDraw, qr_pairing_ttl,
  qr_session_invalid, unexpired, render_qr_svg, create_qr, get_pending,
}

-- The QR code of a session is honoured until its time to live is over and not later, and making it
-- changes no other session.
pub get_pending-create_qr :
    (encode : String → String ⊎ QrCode) (draw : QrDraw) (unix now : ℕ)
    (pending : WirelessPairingManager) (qr : WirelessPairingQr)
    → (create_qr encode draw unix now pending).0 ≡ ok qr
    → (id : String) (later : ℕ) → now ≤ later
    → (get_pending id later (create_qr encode draw unix now pending).1).0 ≡ (
        if draw.session_id == id
        then (if ltb later (now + qr_pairing_ttl)
            then ok (record {
              service_name = "studio-" <> draw.service_suffix;
              password = draw.password;
              expires_at = now + qr_pairing_ttl;
            })
            else err qr_session_invalid)
        else (get_pending id later pending).0)
unfolding create_qr get_pending
get_pending-create_qr encode draw unix now pending qr h id later le =
    let session : PendingPairing = record {
      service_name = "studio-" <> draw.service_suffix;
      password = draw.password;
      expires_at = now + qr_pairing_ttl;
    } in
    let after = insert draw.session_id session (retain (unexpired now) pending) in
    elim (Result-cases (
      render_qr_svg encode (
        "WIFI:T:ADB;S:" <> ("studio-" <> draw.service_suffix) <> ";P:" <> draw.password <> ";;"))) [
          | inr (e, bad) ↦ absurd (ground arith)
          | inl (svg, good) ↦
              rw (good, create_qr)
                (ground (
                  arith,
                  lookup-retain (unexpired later) id after,
                  lookup-retain (unexpired later) id pending,
                  lookup-insert draw.session_id id session (retain (unexpired now) pending),
                  lookup-retain (unexpired now) id pending,
                ))
        ]
