-- ===== src/Companion/Session.antt =====
-- companion/session.rs: the sessions of `CompanionSessionManager`, a `HashMap` from device ids.
pub mod Handlers
pub mod Log
pub mod Frame
pub mod Authority
use webadbcontrol.Base.{
  ℕ, String, ◌==◌, ◌<>◌, Bool, true, false, not, Option, none, some, List, [], ◌∷◌, map, any,
  filter, length, ◌==ℕ◌, if◌then◌else◌, ◌⊎◌, inl, inr,
}
use webadbcontrol.Base.Text.{is_blank, show_ℕ, contains}
use webadbcontrol.Base.Map.{Map, lookup, insert, values}
use webadbcontrol.Error.{
  AppError, new, with_cause, with_suggestion, Result, ok, err, ◌>>=◌, ◌>>◌, fail_if, or_fail,
}
use webadbcontrol.Companion.Capability.{
  Capability, CapabilityPermissionState, android_companion_capability_catalog, find_capability,
}
use webadbcontrol.Companion.Protocol.{
  QuicChannel, control, QuicMessageKind, hello, hello_ack, heartbeat, capability_list,
  permission_state, command_request, command_response, stream_open, stream_chunk, stream_close,
  error, QuicEnvelope, CompanionHello, companion_protocol, companion_protocol_version,
  validate_quic_envelope,
}
use webadbcontrol.Companion.Registry.{
  ConnectionState, disconnected, connecting, handshaking, ready, degraded, failed, CompanionDevice,
}

pub record CompanionSession : Type 0 where
  pub device_id : String
  pub display_name : String
  pub app_version : String
  pub android_sdk : ℕ
  pub connection_state : ConnectionState
  pub capabilities : List Capability
  pub permission_states : List CapabilityPermissionState

abbrev pub to_device : CompanionSession → CompanionDevice
to_device s = record {
  device_id = s.device_id;
  display_name = s.display_name;
  app_version = s.app_version;
  android_sdk = s.android_sdk;
  connection_state = s.connection_state;
  capabilities = s.capabilities;
  permission_states = s.permission_states;
}

abbrev pub CompanionSessionManager : Type 0
CompanionSessionManager = Map CompanionSession

pub record AnnouncedCapability : Type 0 where
  pub id : String
  pub operations : List String

pub record AnnouncedPermissionState : Type 0 where
  pub capability_id : String
  pub granted : Bool
  pub missing_permissions : List String
  pub missing_special_grants : List String
  pub user_consent_required : Bool

-- serde_json: its values, what `json!` builds, and the decoders of the derived types; and the crate
-- base64. A decoder's failure carries its text.
pub record SerdeJson : Type 1 where
  pub Value : Type 0
  pub get : Value → String → Option Value
  pub as_str : Value → Option String
  pub as_bool : Value → Option Bool
  pub null : Value
  pub text : String → Value
  pub number : ℕ → Value
  pub boolean : Bool → Value
  pub array : List Value → Value
  pub object : List (String × Value) → Value
  pub hello_from_value : Value → String ⊎ CompanionHello
  pub capabilities_from_value : Value → String ⊎ List AnnouncedCapability
  pub states_from_value : Value → String ⊎ List AnnouncedPermissionState
  pub to_vec : QuicEnvelope Value → String ⊎ String
  pub envelope_from_slice : String → String ⊎ QuicEnvelope Value
  pub decode_base64 : String → String ⊎ List ℕ

unfoldable pub session_error : String → String → Bool → AppError
unfolding new
session_error error_code message recoverable =
    new error_code message "companion.session" recoverable

unfoldable pub session_caused : String → String → String → AppError
unfolding session_error with_cause
session_caused error_code message cause = with_cause (session_error error_code message false) cause

unfoldable pub session_not_connected : String → AppError
unfolding session_error with_suggestion
session_not_connected device_id =
    with_suggestion
      (session_error "COMPANION_SESSION_NOT_CONNECTED"
        ("Android companion QUIC session is not connected for device " <> device_id <> ".") true)
      "Complete companion hello/helloAck before synchronizing capability state."

unfoldable pub arrived_early : String → String → AppError
unfolding session_error
arrived_early what device_id =
    session_error "COMPANION_SESSION_NOT_CONNECTED"
      (what <> " arrived before hello for device " <> device_id <> ".") true

-- `{kind:?}`
abbrev pub debug_kind : QuicMessageKind → String
debug_kind hello = "Hello"
debug_kind hello_ack = "HelloAck"
debug_kind heartbeat = "Heartbeat"
debug_kind capability_list = "CapabilityList"
debug_kind permission_state = "PermissionState"
debug_kind command_request = "CommandRequest"
debug_kind command_response = "CommandResponse"
debug_kind stream_open = "StreamOpen"
debug_kind stream_chunk = "StreamChunk"
debug_kind stream_close = "StreamClose"
debug_kind error = "Error"

-- The state's serialized name.
abbrev pub state_name : ConnectionState → String
state_name disconnected = "disconnected"
state_name connecting = "connecting"
state_name handshaking = "handshaking"
state_name ready = "ready"
state_name degraded = "degraded"
state_name failed = "failed"

unfoldable pub get_session : String → CompanionSessionManager → Result CompanionSession
get_session device_id sessions =
    or_fail (lookup device_id sessions) (session_not_connected device_id)

unfoldable pub devices : CompanionSessionManager → List CompanionDevice
unfolding values
devices sessions = map to_device (values sessions)

-- The announced capability, as the catalog describes it.
unfoldable pub resolve_capability : AnnouncedCapability → Result Capability
resolve_capability announced = do
  capability ← or_fail (find_capability announced.id android_companion_capability_catalog) (
      session_error "COMPANION_CAPABILITY_UNKNOWN"
        ("Companion announced an unknown capability: " <> announced.id <> ".") false)
  fail_if (any (λ operation. not (contains operation capability.operations)) announced.operations) (
      session_error "COMPANION_CAPABILITY_OPERATION_INVALID"
        ("Companion capability " <> announced.id
          <> " announced an operation outside the Core catalog.")
        false)
  ok capability

unfoldable pub resolve_state : AnnouncedPermissionState → Result CapabilityPermissionState
resolve_state announced = do
  capability ←
      or_fail (find_capability announced.capability_id android_companion_capability_catalog) (
        session_error "COMPANION_PERMISSION_CAPABILITY_UNKNOWN"
          ("Companion reported permission state for an unknown capability: "
            <> announced.capability_id <> ".")
          false)
  ok (record {
    capability_id = announced.capability_id;
    granted = announced.granted;
    android_permissions = capability.permission.android_permissions;
    missing_permissions = announced.missing_permissions;
    special_grants =
        filter (λ grant. not (contains grant announced.missing_special_grants))
          capability.permission.special_permissions;
    missing_special_grants = announced.missing_special_grants;
    user_consent_required = announced.user_consent_required;
  })

-- The `for` loop over the announcements: it stops at the first error.
unfoldable pub resolve_all {ℓ κ} :
    {A : Type ℓ} {B : Type κ} → (A → Result B) → List A → Result (List B)
resolve_all f [] = ok []
resolve_all f (a ∷ more) = let rest = resolve_all f more in f a >>= λ b. rest >>= λ bs. ok (b ∷ bs)

unfoldable pub is_empty {ℓ} : {A : Type ℓ} → List A → Bool
is_empty [] = true
is_empty (x ∷ xs) = false
