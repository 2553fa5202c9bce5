-- ===== src/Ipc/Tests.antt =====
-- `CoreService` on concrete inputs: the cases of the tests in protocol.rs, and the theorems there.
use webadbcontrol.Base.{
  ◌==◌, ◌==ℕ◌, if◌then◌else◌, ℕ, List, ◌∷◌, [], some, none, Option, String, ◌≡◌, refl, true, inl,
  inr, ◌⊎◌, arith,
}
use webadbcontrol.Error.{ok, err}
use webadbcontrol.Adb.KeepAlive.{initial, default_config, interval_invalid, validate, configure}
use webadbcontrol.Companion.Capability.{find_capability, android_companion_capability_catalog}
use webadbcontrol.Companion.Registry.{CompanionDevice, ready, find_device, get_device}
use webadbcontrol.Companion.Router.{no_session}
use webadbcontrol.Ipc.{IpcRequest, IpcResponse, failure}
use webadbcontrol.Ipc.Examples.{texts, plain}
use webadbcontrol.Ipc.Host.{CoreService, Host}
use webadbcontrol.Ipc.Handlers.{handle_adb_keepalive_status, check_offered}
use webadbcontrol.Ipc.Core.{
  by_method, by_reading, handle_adb_keepalive_configure, core_handle_request,
}
use webadbcontrol.Ipc.Core.Answers.{core_handle_request-Answers}
use webadbcontrol.Ipc.Core.Frame.{Frame, core_handle_request-Frame}
use webadbcontrol.Ipc.Core.Pace.{IsPaced, core_handle_request-IsPaced}
use webadbcontrol.Ipc.Lines.{
  WriteFailure, at_flush, handle_json_line_result, encode_response, handle_json_line,
  serve_json_lines,
}
use webadbcontrol.Ipc.Responses.{Answers}

abbrev phone : CompanionDevice
phone = record {
  device_id = "device-1";
  display_name = "Pixel Test";
  app_version = "0.1.0";
  android_sdk = 35;
  connection_state = ready;
  capabilities = android_companion_capability_catalog;
  permission_states = [];
}

abbrev core : CoreService
core = record {
  manifest = record { schema_version = 1; adb_version = "36.0.0"; assets = [] };
  companion_registry = phone ∷ [];
  companion_connection_info = none;
  keepalive = some (initial default_config 1000);
  wireless_pairing = [];
  local_admin = none;
  adb_processes = record { children = []; ended = []; lost = [] };
}

abbrev host : Host String
host = record {
  os = "linux";
  arch = "x86_64";
  to_ascii_lowercase = λ s. s;
  current_exe_parent = inr (some "/opt/core");
  join = λ dir path. path;
  run = λ path args. err (no_session "device-1");
  spawn = λ path args. inr 41;
  stopping = record { has_ended = λ child. true; kill = λ child. none };
  dispatch = λ command. err (no_session command.device_id);
  thread_alive = true;
  encode_qr = λ content. inl "no code";
  drawn = record { session_id = "session"; service_suffix = "abcdefghij"; password = "secret" };
  unix_now = 1700000000;
  instant_now = 1000;
  turn = record {
    now = 1000;
    later = 1001;
    fresh_token = "local";
    salt_bits = 7;
    disk = record {
      has_parent = true;
      create_dir = none;
      open_file = none;
      write_all = none;
      left_over = "";
    };
  };
}

abbrev request_of : String → IpcRequest String
request_of method = record { id = "7"; method = method; params = "device-1" }

-- An interval of four seconds is refused.
configure_test :
    (core_handle_request plain texts host (request_of "adb.keepalive.configure") core).0
    ≡ failure (some "7") interval_invalid
unfolding core_handle_request by_reading by_method handle_adb_keepalive_configure configure validate
configure_test = refl

core_handle_request-Answers_example :
    Answers "7" (core_handle_request plain texts host (request_of "adb.keepalive.configure") core).0
core_handle_request-Answers_example =
    core_handle_request-Answers plain texts host (request_of "adb.keepalive.configure") core

core_handle_request-Frame_example :
    Frame plain texts host
      (request_of "adb.scrcpy.stop")
      core
      (core_handle_request plain texts host (request_of "adb.scrcpy.stop") core).1
core_handle_request-Frame_example =
    core_handle_request-Frame plain texts host (request_of "adb.scrcpy.stop") core

IsPaced-core : IsPaced core.keepalive
unfolding initial
IsPaced-core = omega arith

core_handle_request-IsPaced_example :
    IsPaced
      (core_handle_request plain texts host (request_of "adb.keepalive.configure") core).1.keepalive
core_handle_request-IsPaced_example =
    core_handle_request-IsPaced plain texts host (request_of "adb.keepalive.configure") core
      IsPaced-core

invoke_test :
    check_offered texts host core (record {
      device_id = "device-1";
      capability_id = "android.camera.stream";
      operation = "camera.open";
      args = "{}";
    })
    ≡ ok tt
unfolding check_offered get_device find_device find_capability android_companion_capability_catalog
invoke_test = refl

abbrev from_str : String → String ⊎ IpcRequest String
from_str line = if line == "status" then inr (request_of "adb.keepalive.status") else inl "not JSON"

abbrev to_string : IpcResponse String → String ⊎ String
to_string response = inr (if response.ok then "good" else "bad")

-- The second response cannot be flushed.
abbrev second_fails : ℕ → Option WriteFailure
second_fails n = if n ==ℕ 1 then some (at_flush "closed") else none

abbrev given_lines : List (String ⊎ String)
given_lines = inr "status" ∷ inr "{" ∷ inr "status" ∷ []

lines_test :
    (serve_json_lines from_str to_string
      (λ cause. cause)
      (core_handle_request plain texts host)
      second_fails
      0
      given_lines
      core).1
    ≡ "good" ∷ "\n" ∷ "bad" ∷ "\n" ∷ []
unfolding serve_json_lines handle_json_line handle_json_line_result encode_response
    core_handle_request by_reading handle_adb_keepalive_status
lines_test = refl
