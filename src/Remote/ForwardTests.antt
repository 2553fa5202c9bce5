-- ===== src/Remote/ForwardTests.antt =====
-- What goes on to Core and to its log, on concrete inputs: the cases of the tests in
-- remote/service.rs, and the theorems there.
use webadbcontrol.Base.{
  filter, ℕ, ◌+◌, ◌≡◌, refl, String, ◌==◌, ◌<>◌, Bool, true, false, ◌||◌, Option, none, some, List,
  [], ◌∷◌, all, any, if◌then◌else◌, ◌⊎◌, inr, eq_refl,
}
use webadbcontrol.Base.Map.{keys}
use webadbcontrol.Base.Text.{text_eq}
use webadbcontrol.Error.{ok}
use webadbcontrol.Ipc.{IpcRequest, IpcResponse}
use webadbcontrol.Remote.Accounts.{AuthenticatedSession, user}
use webadbcontrol.Remote.Authorize.{RemoteRequest, authorize_user_core_request}
use webadbcontrol.Remote.Devices.{
  JsonDocument, text_of, matches, is_known_as, lines, split_whitespace, parse_adb_device_id,
  reconcile_device, reconcile_all, reconcile_remote_device_list,
}
use webadbcontrol.Remote.Devices.Entries.{Members}
use webadbcontrol.Remote.Devices.Directory.{distinct}
use webadbcontrol.Remote.Devices.Assigned.{reconcile_remote_device_list-Assigned}
use webadbcontrol.Remote.Diagnostics.{ClientEvent, report_diagnostics}
use webadbcontrol.Remote.Forward.{
  resolve_request_device_alias, forward_resolved, forward_core_request,
}
use webadbcontrol.Remote.Forward.Passed.{Passed}
use webadbcontrol.Remote.Identity.{
  normalized_mdns_service_identity, same_remote_device_identity, session_can_access_device,
}

-- Values without arrays: an object has the keys that pass its test.
data Document : Type 0 where
  string : String → Document
  object : (String → Bool) → (String → Document) → Document

abbrev member : Document → String → Option Document
member (string s) key = none
member (object has value) key = if has key then some (value key) else none

abbrev text : Document → Option String
text (string s) = some s
text (object has value) = none

abbrev is_object : Document → Bool
is_object (string s) = false
is_object (object has value) = true

abbrev set : Document → String → Document → Document
set (string s) key x = string s
set (object has value) key x =
    object (λ other. key == other || has other) (λ other. if key == other then x else value other)

abbrev built : List (String × Document) → Document
built [] = object (λ key. false) (λ key. string "")
built ((key, x) ∷ fields) = set (built fields) key x

abbrev documents : JsonDocument
documents = record {
  reads = record { Value = Document; get = member; as_str = text; as_array = λ v. none };
  is_object = is_object;
  string = string;
  array = λ values. string "array";
  object = built;
  set = set;
}

set_is_object :
    (v : Document) (key : String) (x : Document)
    → is_object v ≡ true
    → is_object (set v key x) ≡ true
set_is_object (string s) key x h = h
set_is_object (object has value) key x h = refl

built_is_object : (fields : List (String × Document)) → is_object (built fields) ≡ true
built_is_object [] = refl
built_is_object ((key, x) ∷ fields) = set_is_object (built fields) key x (built_is_object fields)

get_is_object :
    (v : Document) (key : String) (x : Document) → member v key ≡ some x → is_object v ≡ true
get_is_object (string s) key x h = cc
get_is_object (object has value) key x h = refl

get_set :
    (v : Document) (key : String) (x : Document)
    → is_object v ≡ true
    → member (set v key x) key ≡ some x
get_set (string s) key x h = cc
get_set (object has value) key x h = rw (eq_refl key) refl

get_set_other :
    (v : Document) (key other : String) (x : Document)
    → is_object v ≡ true
    → (key == other) ≡ false
    → member (set v key x) other ≡ member v other
get_set_other (string s) key other x h k = refl
get_set_other (object has value) key other x h k = rw k refl

Members-documents : Members documents
Members-documents = record {
  get_is_object = get_is_object;
  object_is_object = built_is_object;
  set_is_object = set_is_object;
  get_set = get_set;
  get_set_other = get_set_other;
  as_str_string = λ s. refl;
}

abbrev old_id : String
old_id = "adb-ABC._adb-tls-connect._tcp"

-- The same device, as Android names it when the name is taken.
abbrev new_id : String
new_id = "adb-ABC (2)._adb-tls-connect._tcp"

abbrev session : AuthenticatedSession
session = record {
  token = "token";
  username = "alice";
  role = user;
  devices = ("USB-1", tt) ∷ (old_id, tt) ∷ [];
  password_change_required = false;
}

abbrev listed : List Document
listed =
    built (("deviceId", string old_id) ∷ ("connectionState", string "ready") ∷ [])
    ∷ built (("deviceId", string "other") ∷ [])
    ∷ []

abbrev ids : List Document → List (Option String)
ids [] = []
ids (device ∷ devices) = text_of documents device "deviceId" ∷ ids devices

-- The connected device is shown under its present id, the other device as remembered.
reconcile_test :
    ids (reconcile_remote_device_list documents listed session (new_id ∷ []))
    ≡ some "USB-1" ∷ some new_id ∷ []
unfolding reconcile_remote_device_list reconcile_all reconcile_device same_remote_device_identity
    normalized_mdns_service_identity text_eq filter
reconcile_test = refl

reconcile_remote_device_list-Assigned_example :
    let shown = reconcile_remote_device_list documents listed session (new_id ∷ []) in
    (all
        (λ e.
          matches documents (session_can_access_device session) (text_of documents e "deviceId"))
        shown
      ≡ true)
    × (all (λ a. any (is_known_as documents a) shown) (keys session.devices) ≡ true)
    × (distinct documents shown ≡ true)
reconcile_remote_device_list-Assigned_example =
    reconcile_remote_device_list-Assigned documents Members-documents listed session (new_id ∷ [])

-- A Core that counts its requests, and answers each with what adb prints.
abbrev counts : IpcRequest Document → ℕ → IpcResponse Document × ℕ
counts request n = (
  record {
    id = some request.id;
    ok = true;
    result =
        some
          (built (("stdout", string ("header\n" <> new_id <> "\tdevice\nUSB-2 offline\n")) ∷ []));
    error = none;
  },
  n + 1,
)

parse_test :
    (parse_adb_device_id "adb-ABC (2)._adb-tls-connect._tcp device product:x" ≡ some new_id)
    × (parse_adb_device_id "USB-2 offline device" ≡ none)
    × (parse_adb_device_id "device" ≡ none)
unfolding parse_adb_device_id split_whitespace
parse_test = (refl, refl, refl)

abbrev invoke : RemoteRequest Document
invoke = record {
  id = "9";
  session_token = some "token";
  method = "device.invoke";
  params = built (("deviceId", string old_id) ∷ []);
}

-- Core is asked for adb's devices, and then for the command.
forward_test : (forward_core_request documents counts invoke session 0).1 ≡ 2
unfolding forward_core_request forward_resolved resolve_request_device_alias
    authorize_user_core_request session_can_access_device same_remote_device_identity
    normalized_mdns_service_identity text_eq parse_adb_device_id split_whitespace lines
forward_test = refl

abbrev event : ClientEvent
event = record {
  level = "info";
  phase = "connect\ninjected";
  module_name = "quic.client";
  is_ok = true;
  elapsed_ms = 12;
  error_code = "";
  detail = " done ";
}

abbrev reported : String ⊎ (String × List ClientEvent)
reported = inr ("session-1", event ∷ [])

report_test : (report_diagnostics reported "alice").0 ≡ ok 1
unfolding report_diagnostics
report_test = refl
