-- ===== src/Adb/Wireless.antt =====
-- wireless.rs: pairing a phone by a QR code. What adb prints is walked, so it is a `Text`, and so
-- are the arguments of adb. Instants are seconds.
pub mod Lines
pub mod Advertised
pub mod Created
pub mod Pairing
use webadbcontrol.Base.{
  ℕ, suc, ◌+◌, ◌*◌, ◌%◌, ◌/◌, String, ◌<>◌, Bool, true, false, not, ◌&&◌, ◌||◌, Option, none, some,
  List, [], ◌∷◌, ltb, ◌==ℕ◌, if◌then◌else◌, ◌⊎◌, inl, inr,
}
use webadbcontrol.Base.Text.{Text, codes, text_eq, between, is_whitespace, show_ℕ}
use webadbcontrol.Base.Map.{Map, lookup, insert, remove, retain}
use webadbcontrol.Error.{
  AppError, new, with_cause, with_suggestion, Result, ok, err, ◌>>=◌, ◌>>◌, or_fail, fail_if,
}
use webadbcontrol.Adb.Wireless.Lines.{
  find_pairing_endpoint, trim_start, to_ascii_lowercase, starts_with,
}

abbrev pub qr_pairing_ttl : ℕ
qr_pairing_ttl = 120

abbrev pub qr_quiet_zone_modules : ℕ
qr_quiet_zone_modules = 4

pub record WirelessPairingQr : Type 0 where
  pub session_id : String
  pub service_name : String
  pub qr_svg : String
  pub mime_type : String
  pub expires_at : ℕ

pub record WirelessPairingResult : Type 0 where
  pub paired : Bool
  pub service_name : String
  pub endpoint : Text

pub record PendingPairing : Type 0 where
  pub service_name : String
  pub password : String
  pub expires_at : ℕ

-- The lock is never poisoned: no code that holds it panics.
abbrev pub WirelessPairingManager : Type 0
WirelessPairingManager = Map PendingPairing

unfoldable pub qr_error : String → String → AppError
unfolding new
qr_error error_code message = new error_code message "adb.wifi.qr" true

unfoldable pub qr_session_invalid : AppError
unfolding qr_error
qr_session_invalid =
    qr_error "ADB_QR_PAIRING_SESSION_INVALID"
      "The QR pairing session is missing, expired, or cancelled."

-- The crate qrcode's answer: the width, and which modules are dark, row by row.
pub record QrCode : Type 0 where
  pub width : ℕ
  pub dark : List Bool

-- The loop over the modules, from `index` on. (The crate makes no code of width zero.)
abbrev dark_path : ℕ → ℕ → List Bool → String
dark_path width index [] = ""
dark_path width index (dark ∷ more) =
    let rest = dark_path width (suc index) more in
    if dark
    then "M"
      <> show_ℕ (index % width + qr_quiet_zone_modules)
      <> " "
      <> show_ℕ (index / width + qr_quiet_zone_modules)
      <> "h1v1h-1z"
      <> rest
    else rest

unfoldable pub render_qr_svg : (String → String ⊎ QrCode) → String → Result String
unfolding with_cause qr_error
render_qr_svg encode content = elim (encode content) [
  | inl cause ↦ err (
      with_cause
        (qr_error "ADB_QR_GENERATION_FAILED"
          "Core failed to encode the wireless ADB pairing QR code.")
        cause)
  | inr code ↦
      let canvas = show_ℕ (code.width + qr_quiet_zone_modules * 2) in
      ok (
        "<svg xmlns=\"http://www.w3.org/2000/svg\" viewBox=\"0 0 "
        <> canvas
        <> " "
        <> canvas
        <> "\" shape-rendering=\"crispEdges\"><rect width=\"100%\" height=\"100%\" fill=\"white\"/><path d=\""
        <> dark_path code.width 0 code.dark
        <> "\" fill=\"black\"/></svg>")
]

abbrev pub unexpired : ℕ → String → PendingPairing → Bool
unexpired now _ pairing = ltb now pairing.expires_at

-- What is drawn: the id, and the two random texts.
pub record QrDraw : Type 0 where
  pub session_id : String
  pub service_suffix : String
  pub password : String

-- `unix` is the clock's time, and `now` the instant; the sum of `unix` saturates in `u64`.
unfoldable pub create_qr :
    (String → String ⊎ QrCode)
    → QrDraw
    → ℕ
    → ℕ
    → WirelessPairingManager
    → Result WirelessPairingQr × WirelessPairingManager
create_qr encode draw unix now pending =
    let service_name = "studio-" <> draw.service_suffix in
    elim (render_qr_svg encode
      ("WIFI:T:ADB;S:" <> service_name <> ";P:" <> draw.password <> ";;")) [
        | err e ↦ (err e, pending)
        | ok qr_svg ↦ (
          ok (record {
            session_id = draw.session_id;
            service_name = service_name;
            qr_svg = qr_svg;
            mime_type = "image/svg+xml";
            expires_at =
                if ltb (unix + qr_pairing_ttl) 0x1_0000_0000_0000_0000
                then unix + qr_pairing_ttl
                else 0xffff_ffff_ffff_ffff;
          }),
          insert draw.session_id
              (record {
                service_name = service_name;
                password = draw.password;
                expires_at = now + qr_pairing_ttl;
              })
              (retain (unexpired now) pending),
        )
      ]

unfoldable pub cancel : String → WirelessPairingManager → WirelessPairingManager
cancel session_id pending = remove session_id pending

unfoldable pub get_pending :
    String → ℕ → WirelessPairingManager → Result PendingPairing × WirelessPairingManager
get_pending session_id now pending =
    let alive = retain (unexpired now) pending in
    (or_fail (lookup session_id alive) qr_session_invalid, alive)

-- What a run of adb gives; only whether the exit code is zero is looked at.
pub record RunOutput : Type 0 where
  pub exit_is_zero : Bool
  pub stdout : Text

unfoldable pub not_discovered : AppError
unfolding qr_error with_suggestion
not_discovered =
    with_suggestion
      (qr_error "ADB_QR_PAIRING_NOT_DISCOVERED"
        "The phone has not advertised the QR pairing service yet.")
      "Keep the QR scanner open and retry this request shortly."

abbrev pub confirms : RunOutput → Bool
confirms output =
    output.exit_is_zero
    && starts_with (codes "successfully paired to ") (to_ascii_lowercase (trim_start output.stdout))

-- The two runs of adb; `runner` answers the arguments it is given.
abbrev pub pair_with :
    (List Text → Result RunOutput) → PendingPairing → Result WirelessPairingResult
pair_with runner pairing = do
  discovery ← runner (codes "mdns" ∷ codes "services" ∷ [])
  fail_if (not discovery.exit_is_zero)
      (qr_error "ADB_QR_PAIRING_DISCOVERY_FAILED" "ADB could not query mDNS pairing services.")
  endpoint ←
      or_fail (find_pairing_endpoint discovery.stdout (codes pairing.service_name)) not_discovered
  output ← runner (codes "pair" ∷ endpoint ∷ codes pairing.password ∷ [])
  fail_if (not (confirms output))
      (qr_error "ADB_QR_PAIRING_FAILED" "ADB did not confirm QR-code pairing.")
  ok (record { paired = true; service_name = pairing.service_name; endpoint = endpoint })

unfoldable pub pair :
    (List Text → Result RunOutput)
    → String
    → ℕ
    → WirelessPairingManager
    → Result WirelessPairingResult × WirelessPairingManager
unfolding get_pending cancel
pair runner session_id now pending =
    let (found, alive) = get_pending session_id now pending in
    elim found [
      | err e ↦ (err e, alive)
      | ok pairing ↦ elim (pair_with runner pairing) [
        | err e ↦ (err e, alive)
        | ok result ↦ (ok result, cancel session_id alive)
      ]
    ]
