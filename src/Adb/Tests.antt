-- ===== src/Adb/Tests.antt =====
-- The tools around adb on concrete inputs: the cases of the tests in keepalive.rs, adb.rs,
-- platform.rs and wireless.rs, and the theorems at inputs that meet their hypotheses.
use webadbcontrol.Base.{ℕ, ◌≡◌, refl, String, true, false, List, [], ◌∷◌, arith, inr, ◌⊎◌, All}
use webadbcontrol.Base.Text.{
  Text, codes, text_eq, is_blank, is_ascii_alphanumeric, hex_padded, show_ℕ,
}
use webadbcontrol.Base.Map.{lookup, insert, remove, retain, kept}
use webadbcontrol.Error.{Result, ok, err}
use webadbcontrol.Adb.Command.{exit_ok, exit_failed, AdbCommandOutput, validate_adb_args}
use webadbcontrol.Adb.KeepAlive.{
  AdbKeepAliveConfig, validate, initial, apply_cycle, apply_configure, Event, receives, stops,
  times_out, next_turn, keepalive_loop, step,
}
use webadbcontrol.Adb.KeepAlive as KeepAlive
use webadbcontrol.Adb.KeepAlive.Runs.{keepalive_loop_count}
use webadbcontrol.Adb.Scrcpy.{
  ScrcpyServerConfig, validate_scrcpy_config, remote_args, build_scrcpy_server_args,
}
use webadbcontrol.Adb.Scrcpy.Shell.{IsPlain, build_scrcpy_server_args-IsPlain}
use webadbcontrol.Adb.Platform.{
  HostTarget, AdbAsset, AdbManifest, os_of, arch_of, from_parts, find_adb_asset,
}
use webadbcontrol.Adb.Platform.Targets.{from_parts-find_adb_asset}
use webadbcontrol.Adb.Wireless.Lines.{find_pairing_endpoint}
use webadbcontrol.Adb.Wireless.{
  QrCode, QrDraw, RunOutput, WirelessPairingManager, WirelessPairingQr, WirelessPairingResult,
  qr_error, qr_session_invalid, unexpired, render_qr_svg, create_qr, get_pending, pair, cancel,
}
use webadbcontrol.Adb.Wireless.Created.{get_pending-create_qr}
use webadbcontrol.Adb.Wireless.Pairing.{Paired, pair-Paired, pair_retry}

all_shut : Unit {0}
unfolding validate initial apply_cycle apply_configure keepalive_loop step KeepAlive.run
    validate_adb_args validate_scrcpy_config build_scrcpy_server_args os_of arch_of from_parts
    find_adb_asset find_pairing_endpoint render_qr_svg create_qr get_pending pair cancel lookup
    insert remove retain text_eq is_blank is_ascii_alphanumeric hex_padded show_ℕ
all_shut = tt

abbrev keep : String → String
keep s = s

abbrev config : AdbKeepAliveConfig
config = record { enabled = true; interval_secs = 5 }

abbrev passes : Result AdbCommandOutput
passes = ok (record { exit_code = exit_ok; stdout = ""; stderr = "" })

abbrev fails : Result AdbCommandOutput
fails = ok (record { exit_code = exit_failed "1"; stdout = ""; stderr = "device offline" })

abbrev events : List Event
events =
    times_out 30 passes
    ∷ times_out 35 fails
    ∷ receives (record { enabled = true; interval_secs = 60 })
    ∷ times_out 95 fails
    ∷ []

count_test :
    (keepalive_loop keep 25 fails events (initial config 20)).status.consecutive_failures ≡ 2
unfolding all_shut
count_test = refl

keepalive_loop_count_test :
    (keepalive_loop keep 25 fails events (initial config 20)).status.consecutive_failures ≡ 2
unfolding all_shut
keepalive_loop_count_test = keepalive_loop_count keep config 20 25 fails events

abbrev pub scrcpy : ScrcpyServerConfig
scrcpy = record {
  session_id = "web-1234abcd";
  device_id = "device-1";
  apk_path = "/data/app/~~abc==/com.adbcontrol.companion/base.apk";
  scid = 0x1234_abcd;
  max_size = 1280;
  video_bit_rate = 4_000_000;
  max_fps = 30;
}

args_test : build_scrcpy_server_args scrcpy ≡ ok ("-s" ∷ "device-1" ∷ "shell" ∷ remote_args scrcpy)
unfolding all_shut
args_test = refl

build_scrcpy_server_args-IsPlain_example :
    ("-s" ∷ "device-1" ∷ "shell" ∷ remote_args scrcpy
      ≡ "-s" ∷ "device-1" ∷ "shell" ∷ remote_args scrcpy)
    × All IsPlain (remote_args scrcpy)
    × (validate_adb_args ("-s" ∷ "device-1" ∷ "shell" ∷ remote_args scrcpy) ≡ ok tt)
build_scrcpy_server_args-IsPlain_example =
    build_scrcpy_server_args-IsPlain scrcpy ("-s" ∷ "device-1" ∷ "shell" ∷ remote_args scrcpy)
      args_test

names_test : (os_of "darwin" ≡ ok "macos") × (arch_of "amd64" ≡ ok "x86_64")
unfolding all_shut
names_test = (refl, refl)

abbrev mac : HostTarget
mac = record { os = "macos"; arch = "x86_64"; target_id = "macos-x86_64" }

from_parts-find_adb_asset_test :
    (from_parts keep "darwin" "amd64" ≡ ok mac)
    × ((manifest : AdbManifest) (asset : AdbAsset)
        → find_adb_asset manifest mac ≡ ok asset
        → asset.target_id ≡ "macos-x86_64")
from_parts-find_adb_asset_test =
    from_parts-find_adb_asset keep "darwin" "amd64" "macos" "x86_64" names_test.0 names_test.1

abbrev qr_code : String → String ⊎ QrCode
qr_code content = inr (record { width = 2; dark = true ∷ false ∷ false ∷ true ∷ [] })

abbrev draw : QrDraw
draw = record { session_id = "session"; service_suffix = "abcdefghij"; password = "secret" }

abbrev made : Result WirelessPairingQr × WirelessPairingManager
made = create_qr qr_code draw 1700000000 1000 []

abbrev pending : WirelessPairingManager
pending = made.1

abbrev phone_answers : List Text → Result RunOutput
phone_answers (_ ∷ _ ∷ []) = ok (record {
  exit_is_zero = true;
  stdout =
      codes
        "List of discovered mdns services\nstudio-abcdefghij\t_adb-tls-pairing._tcp\t192.168.1.7:37001\n";
})
phone_answers _ = ok (record {
  exit_is_zero = true;
  stdout = codes "Successfully paired to 192.168.1.7:37001 [guid=adb-x]";
})

abbrev silent : List Text → Result RunOutput
silent _ = ok (record { exit_is_zero = false; stdout = [] })

abbrev paired : WirelessPairingResult
paired = record {
  paired = true;
  service_name = "studio-abcdefghij";
  endpoint = codes "192.168.1.7:37001";
}

pair_test : (pair phone_answers "session" 1060 pending).0 ≡ ok paired
unfolding all_shut
pair_test = refl

pair-Paired_example :
    Paired phone_answers "session" 1060 pending paired
    × ((again : List Text → Result RunOutput) (later : ℕ)
        → (pair again "session" later (pair phone_answers "session" 1060 pending).1).0
          ≡ err qr_session_invalid)
pair-Paired_example = pair-Paired phone_answers "session" 1060 pending paired pair_test

silent_test :
    (pair silent "session" 1060 pending).0
    ≡ err (qr_error "ADB_QR_PAIRING_DISCOVERY_FAILED" "ADB could not query mDNS pairing services.")
unfolding all_shut
silent_test = refl

pair_retry_test :
    lookup "session" (pair silent "session" 1060 pending).1
    ≡ kept (unexpired 1060) "session" (lookup "session" pending)
pair_retry_test =
    pair_retry silent "session" 1060 pending
      (qr_error "ADB_QR_PAIRING_DISCOVERY_FAILED" "ADB could not query mDNS pairing services.")
      silent_test "session"

abbrev qr : WirelessPairingQr
qr = record {
  session_id = "session";
  service_name = "studio-abcdefghij";
  qr_svg =
      "<svg xmlns=\"http://www.w3.org/2000/svg\" viewBox=\"0 0 10 10\" shape-rendering=\"crispEdges\"><rect width=\"100%\" height=\"100%\" fill=\"white\"/><path d=\"M4 4h1v1h-1zM5 5h1v1h-1z\" fill=\"black\"/></svg>";
  mime_type = "image/svg+xml";
  expires_at = 1700000120;
}

made_test : made.0 ≡ ok qr
unfolding all_shut
made_test = refl

get_pending-create_qr_test : (get_pending "session" 1120 pending).0 ≡ err qr_session_invalid
get_pending-create_qr_test =
    get_pending-create_qr qr_code draw 1700000000 1000 [] qr made_test "session" 1120 (omega arith)
