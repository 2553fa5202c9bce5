-- ===== src/Companion/Tests.antt =====
-- The companion's sessions and the live transport on concrete inputs: the cases of the tests in
-- companion/session.rs and companion/quinn_transport.rs, and the theorems at inputs that meet
-- their hypotheses.
use webadbcontrol.Base.{
  ◌≡◌, ◌≢◌, refl, String, ◌==◌, Bool, true, false, Option, none, some, List, [], ◌∷◌, if◌then◌else◌,
  arith, inl, inr, ◌⊎◌, eq_iff,
}
use webadbcontrol.Base.Map.{lookup, insert, remove, values}
use webadbcontrol.Error.{ok, err}
use webadbcontrol.Base.Text.{is_blank}
use webadbcontrol.Companion.Capability.{find_capability, android_companion_capability_catalog}
use webadbcontrol.Companion.Protocol.{
  QuicMessageKind, hello, heartbeat, capability_list, permission_state, command_request,
  command_response, control, CompanionHello, validate_quic_envelope,
}
use webadbcontrol.Companion.Registry.{
  CompanionDevice, ready, find_device, upsert, remove_device, get_device, not_connected,
}
use webadbcontrol.Companion.Session.{
  SerdeJson, AnnouncedCapability, AnnouncedPermissionState, CompanionSession,
  CompanionSessionManager, devices, resolve_capability, resolve_state, resolve_all, get_session,
  is_empty,
}
use webadbcontrol.Companion.Session.Handlers.{
  Envelope, opened, check_hello, check_capability_list, check_permission_state,
  parse_required_payload_field, acknowledged, handle_hello, handle_capability_list,
  handle_permission_state, handle_heartbeat, handle_envelope,
}
use webadbcontrol.Companion.Session.Log.{run}
use webadbcontrol.Companion.Session.Frame.{handle_envelope-others}
use webadbcontrol.Companion.Session.Authority.{IsAuthorized, run-IsAuthorized}
use webadbcontrol.Companion.Ingress.{dispatch_envelope, ingress_handle_envelope}
use webadbcontrol.Companion.Live.{
  SessionHandle, LiveState, upsert_all, disconnect, connection_devices, disconnect_all,
  disconnect_connection, reply, accept_envelope,
}
use webadbcontrol.Companion.Live.Send.{send_command}
use webadbcontrol.Companion.Live.Routes.{accept_envelope-route, disconnect_connection_lem}
use webadbcontrol.Companion.Live.Stale.{get_device-heartbeat}
use webadbcontrol.Companion.Live.Command as Command
use webadbcontrol.Companion.Live.Command.{Event}

all_shut : Unit {0}
unfolding run handle_envelope handle_hello handle_capability_list handle_permission_state
    handle_heartbeat check_hello check_capability_list check_permission_state acknowledged
    validate_quic_envelope parse_required_payload_field resolve_capability resolve_state resolve_all
    find_capability android_companion_capability_catalog lookup insert remove values is_blank
    is_empty get_session devices find_device upsert remove_device get_device upsert_all disconnect
    connection_devices disconnect_all disconnect_connection reply accept_envelope send_command
    dispatch_envelope ingress_handle_envelope
all_shut = tt

-- The documents of the tests, as serde_json decodes them.
pub data Document : Type 0 where
  nothing : Document
  string : String → Document
  greeting : CompanionHello → Document
  capabilities : List AnnouncedCapability → Document
  states : List AnnouncedPermissionState → Document
  answer : String → Document

abbrev field : Document → String → Option Document
field (capabilities announced) name =
    if name == "capabilities" then some (capabilities announced) else none
field (states announced) name = if name == "states" then some (states announced) else none
field (answer request) name = if name == "requestId" then some (string request) else none
field _ name = none

abbrev text_of : Document → Option String
text_of (string s) = some s
text_of _ = none

abbrev to_hello : Document → String ⊎ CompanionHello
to_hello (greeting g) = inr g
to_hello _ = inl "not a hello"

abbrev to_capabilities : Document → String ⊎ List AnnouncedCapability
to_capabilities (capabilities announced) = inr announced
to_capabilities _ = inl "not a list"

abbrev to_states : Document → String ⊎ List AnnouncedPermissionState
to_states (states announced) = inr announced
to_states _ = inl "not a list"

abbrev pub documents : SerdeJson
documents = record {
  Value = Document;
  get = field;
  as_str = text_of;
  as_bool = λ value. none;
  null = nothing;
  text = string;
  number = λ n. nothing;
  boolean = λ b. nothing;
  array = λ values. nothing;
  object = λ fields. nothing;
  hello_from_value = to_hello;
  capabilities_from_value = to_capabilities;
  states_from_value = to_states;
  to_vec = λ envelope. inr "bytes";
  envelope_from_slice = λ bytes. inl "not an envelope";
  decode_base64 = λ s. inl "not base64";
}

abbrev pub envelope_of : String → QuicMessageKind → Document → Envelope documents
envelope_of device_id kind payload = record {
  protocol = "adbcontrol-companion-quic";
  version = 1;
  message_id = "message";
  trace_id = none;
  device_id = some device_id;
  channel = control;
  kind = kind;
  payload = payload;
}

abbrev hello_of : String → CompanionHello
hello_of device_id = record {
  app_version = "0.1.0";
  device_id = device_id;
  device_name = "Pixel Test";
  android_sdk = 35;
  supported_protocol_versions = 1 ∷ [];
}

abbrev first_hello : Envelope documents
first_hello = envelope_of "device-1" hello (greeting (hello_of "device-1"))

abbrev sends_sms : AnnouncedCapability
sends_sms = record { id = "android.sms.send"; operations = "sms.send" ∷ [] }

abbrev sms_state : AnnouncedPermissionState
sms_state = record {
  capability_id = "android.sms.send";
  granted = false;
  missing_permissions = "android.permission.SEND_SMS" ∷ [];
  missing_special_grants = [];
  user_consent_required = true;
}

abbrev handshake : List (Envelope documents)
handshake =
    first_hello
    ∷ envelope_of "device-1" capability_list (capabilities (sends_sms ∷ []))
    ∷ envelope_of "device-1" permission_state (states (sms_state ∷ []))
    ∷ []

abbrev state_after : Option CompanionSession → Bool
state_after none = false
state_after (some s) = elim s.connection_state [ ready ↦ true | _ ↦ false ]

handshake_test : state_after (lookup "device-1" (run documents [] handshake)) ≡ true
unfolding all_shut
handshake_test = refl

run-IsAuthorized_example : IsAuthorized "device-1" (opened (hello_of "device-1"))
unfolding all_shut
run-IsAuthorized_example =
    run-IsAuthorized documents (first_hello ∷ []) "device-1" (opened (hello_of "device-1")) refl

greeted : CompanionSessionManager
greeted = run documents [] (first_hello ∷ [])

different :
    (a : Envelope documents)
    → (handle_envelope documents first_hello []).0 ≡ ok a
    → a.device_id ≢ some "device-2"
unfolding all_shut
different a e f =
    let same : "device-1" ≡ "device-2" = ground arith in
    let apart : false ≡ true = (eq_iff "device-1" "device-2").1 same in cc

handle_envelope-others_example :
    lookup "device-2" (handle_envelope documents first_hello []).1 ≡ none
unfolding all_shut
handle_envelope-others_example =
    handle_envelope-others documents first_hello [] "device-2" different

abbrev phone : SessionHandle
phone = record { connection_id = 1; outgoing = 10 }

abbrev stranger : SessionHandle
stranger = record { connection_id = 2; outgoing = 20 }

abbrev idle : LiveState
idle = record {
  registry = [];
  ingress = record { session_manager = []; media_store = none; media_chunk_count = 0 };
  sessions = [];
  pending = [];
}

-- The phone has said hello on connection 1.
abbrev live : LiveState
live = (accept_envelope documents phone true first_hello idle).2

-- A hello of the stranger, whose header names the phone's device and whose payload does not.
abbrev forged : Envelope documents
forged = envelope_of "device-1" hello (greeting (hello_of "device-2"))

accept_envelope-route_example :
    lookup "device-1" (accept_envelope documents stranger true forged live).2.sessions
    ≡ some stranger
unfolding all_shut
accept_envelope-route_example = accept_envelope-route documents stranger true forged live "device-1"

forged_test :
    ((handle_envelope documents forged []).1 ≡ []) × (lookup "device-1" live.sessions ≡ some phone)
unfolding all_shut
forged_test = (refl, refl)

disconnect_connection_lem_example :
    (lookup "device-1" (disconnect_connection 1 live).sessions ≡ none)
    × (find_device "device-1" (disconnect_connection 1 live).registry ≡ none)
unfolding all_shut
disconnect_connection_lem_example = disconnect_connection_lem 1 live "device-1"

live_test : lookup "device-1" live.ingress.session_manager ≡ some (opened (hello_of "device-1"))
unfolding all_shut
live_test = refl

abbrev beat : Envelope documents
beat = envelope_of "device-2" heartbeat nothing

valid_test : validate_quic_envelope beat ≡ ok tt
unfolding all_shut
valid_test = refl

get_device-heartbeat_example :
    (get_device "device-1" (disconnect_connection 1 live).registry ≡ err (not_connected "device-1"))
    × ((d : CompanionDevice) × (get_device "device-1"
            (accept_envelope documents stranger true beat (disconnect_connection 1 live)).2.registry
          ≡ ok d))
unfolding all_shut
get_device-heartbeat_example =
    get_device-heartbeat documents 1 "device-1" (opened (hello_of "device-1")) live live_test refl
      refl stranger true beat valid_test refl

abbrev command : Envelope documents
command = envelope_of "device-1" command_request (answer "request-1")

abbrev response : Envelope documents
response = envelope_of "device-1" command_response (answer "request-1")
