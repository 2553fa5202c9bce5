-- ===== src/Companion/Session/Handlers.antt =====
-- companion/session.rs: the four handlers of `CompanionSessionManager`, and `handle_envelope`. A
-- handler first checks its message against the sessions, and then writes one session.
use webadbcontrol.Base.{
  ℕ, String, ◌==◌, ◌<>◌, Bool, true, false, not, Option, none, some, List, [], ◌∷◌, any, length,
  ◌==ℕ◌, if◌then◌else◌, ◌⊎◌, inl, inr,
}
use webadbcontrol.Base.Text.{is_blank, show_ℕ}
use webadbcontrol.Base.Map.{lookup, insert}
use webadbcontrol.Error.{AppError, with_suggestion, Result, ok, err, ◌>>=◌, ◌>>◌, fail_if, or_fail}
use webadbcontrol.Companion.Capability.{Capability, CapabilityPermissionState}
use webadbcontrol.Companion.Protocol.{
  control, QuicMessageKind, hello, hello_ack, heartbeat, capability_list, permission_state,
  command_response, QuicEnvelope, CompanionHello, companion_protocol, companion_protocol_version,
  validate_quic_envelope,
}
use webadbcontrol.Companion.Registry.{handshaking, ready}
use webadbcontrol.Companion.Session.{
  CompanionSession, CompanionSessionManager, SerdeJson, session_error, session_caused,
  arrived_early, debug_kind, state_name, get_session, resolve_capability, resolve_state,
  resolve_all, is_empty,
}

-- `from_value(...).map_err(...)`
abbrev decoded {ℓ} : {A : Type ℓ} → String ⊎ A → String → String → Result A
decoded (inl cause) error_code message = err (session_caused error_code message cause)
decoded (inr a) error_code message = ok a

-- The device id of a hello's envelope, unless it is missing or blank, is that of the payload.
abbrev pub matches_hello : Option String → String → Bool
matches_hello none device_id = true
matches_hello (some s) device_id = if is_blank s then true else s == device_id

unfoldable pub id_missing : AppError
unfolding session_error
id_missing =
    session_error "COMPANION_DEVICE_ID_MISSING"
      "Companion envelope deviceId is required for session state messages." false

abbrev pub required_id : Option String → Result String
required_id none = err id_missing
required_id (some s) = if is_blank s then err id_missing else ok s

-- A session with no capabilities and no states, as a hello opens it.
abbrev pub opened : CompanionHello → CompanionSession
opened greeting = record {
  device_id = greeting.device_id;
  display_name = greeting.device_name;
  app_version = greeting.app_version;
  android_sdk = greeting.android_sdk;
  connection_state = handshaking;
  capabilities = [];
  permission_states = [];
}

abbrev pub with_capabilities : List Capability → CompanionSession → CompanionSession
with_capabilities capabilities s = record s {
  capabilities = capabilities;
  connection_state = if is_empty s.permission_states then s.connection_state else ready;
}

abbrev pub with_states : List CapabilityPermissionState → CompanionSession → CompanionSession
with_states states s = record s {
  permission_states = states;
  connection_state = if is_empty s.capabilities then s.connection_state else ready;
}

module _ (J : SerdeJson) where
  abbrev pub Envelope : Type 0
  Envelope = QuicEnvelope J.Value

  abbrev core_envelope :
      String → Option String → String → QuicMessageKind → List (String × J.Value) → Envelope
  core_envelope message_id trace_id device_id kind payload = record {
    protocol = companion_protocol;
    version = companion_protocol_version;
    message_id = message_id;
    trace_id = trace_id;
    device_id = some device_id;
    channel = control;
    kind = kind;
    payload = J.object payload;
  }

  abbrev ack : Option String → String → String → List (String × J.Value) → Envelope
  ack trace_id device_id source_message_id payload =
      core_envelope ("ack-" <> source_message_id) trace_id device_id command_response payload

  unfoldable pub field_missing : String → String → String → AppError
  unfolding with_suggestion session_error
  field_missing field error_code message =
      with_suggestion (session_error error_code message false)
        ("Missing required payload field: " <> field <> ".")

  unfoldable pub parse_required_payload_field {ℓ} :
      {A : Type ℓ} → (J.Value → String ⊎ A) → J.Value → String → String → String → Result A
  parse_required_payload_field from_value payload field error_code message = do
    value ← or_fail (J.get payload field) (field_missing field error_code message)
    decoded (from_value value) error_code message

  unfoldable pub check_hello : Envelope → Result CompanionHello
  check_hello envelope = do
    greeting ←
        decoded (J.hello_from_value envelope.payload) "COMPANION_HELLO_INVALID"
          "Companion hello payload is invalid."
    fail_if (not (matches_hello envelope.device_id greeting.device_id)) (
        session_error "COMPANION_HELLO_DEVICE_ID_MISMATCH"
          "Companion hello envelope deviceId must match payload deviceId." false)
    fail_if (not (any (λ v. v ==ℕ companion_protocol_version) greeting.supported_protocol_versions))
        (session_error "COMPANION_PROTOCOL_VERSION_UNSUPPORTED"
          ("Companion device "
            <> greeting.device_id
            <> " does not support protocol version "
            <> show_ℕ companion_protocol_version
            <> ".")
          false)
    ok greeting

  unfoldable pub handle_hello :
      Envelope → CompanionSessionManager → Result Envelope × CompanionSessionManager
  handle_hello envelope sessions = elim (check_hello envelope) [
    | err e ↦ (err e, sessions)
    | ok greeting ↦ (
      ok (
          core_envelope ("hello-ack-" <> greeting.device_id) envelope.trace_id greeting.device_id
            hello_ack
            (("accepted", J.boolean true)
              ∷ ("selectedProtocolVersion", J.number companion_protocol_version)
              ∷ ("serverName", J.text "ADBControl Core")
              ∷ (
                "nextRequiredMessages",
                J.array (J.text "capabilityList" ∷ J.text "permissionState" ∷ []),
              )
              ∷ [])),
      insert greeting.device_id (opened greeting) sessions,
    )
  ]

  -- The device's id and its session, as the message leaves it.
  unfoldable pub check_capability_list :
      Envelope → CompanionSessionManager → Result (String × CompanionSession)
  check_capability_list envelope sessions = do
    device_id ← required_id envelope.device_id
    announcements ←
        parse_required_payload_field J.capabilities_from_value envelope.payload "capabilities"
          "COMPANION_CAPABILITY_SCHEMA_INVALID" "Companion capabilityList payload is invalid."
    capabilities ← resolve_all resolve_capability announcements
    session ← or_fail (lookup device_id sessions) (arrived_early "Capability list" device_id)
    ok (device_id, with_capabilities capabilities session)

  unfoldable pub check_permission_state :
      Envelope → CompanionSessionManager → Result (String × CompanionSession)
  check_permission_state envelope sessions = do
    device_id ← required_id envelope.device_id
    announcements ←
        parse_required_payload_field J.states_from_value envelope.payload "states"
          "COMPANION_PERMISSION_STATE_INVALID" "Companion permissionState payload is invalid."
    states ← resolve_all resolve_state announcements
    session ← or_fail (lookup device_id sessions) (arrived_early "Permission state" device_id)
    ok (device_id, with_states states session)

  -- The rest of both handlers: the session is written and its message acknowledged.
  unfoldable pub acknowledged :
      Envelope
      → String
      → (CompanionSession → ℕ)
      → Result (String × CompanionSession)
      → CompanionSessionManager
      → Result Envelope × CompanionSessionManager
  acknowledged envelope counted count (err e) sessions = (err e, sessions)
  acknowledged envelope counted count (ok (device_id, session)) sessions = (
    ok (
        ack envelope.trace_id device_id envelope.message_id
          (("accepted", J.boolean true) ∷ (counted, J.number (count session)) ∷ [])),
    insert device_id session sessions,
  )

  unfoldable pub handle_capability_list :
      Envelope → CompanionSessionManager → Result Envelope × CompanionSessionManager
  handle_capability_list envelope sessions =
      acknowledged envelope "registeredCapabilityCount" (λ s. length s.capabilities)
        (check_capability_list envelope sessions) sessions

  unfoldable pub handle_permission_state :
      Envelope → CompanionSessionManager → Result Envelope × CompanionSessionManager
  handle_permission_state envelope sessions =
      acknowledged envelope "updatedStateCount" (λ s. length s.permission_states)
        (check_permission_state envelope sessions) sessions

  unfoldable pub handle_heartbeat : Envelope → CompanionSessionManager → Result Envelope
  handle_heartbeat envelope sessions = do
    device_id ← required_id envelope.device_id
    session ← get_session device_id sessions
    ok (
        core_envelope ("heartbeat-ack-" <> envelope.message_id) envelope.trace_id device_id
          heartbeat
          (("receivedMessageId", J.text envelope.message_id)
            ∷ ("serverState", J.text (state_name session.connection_state))
            ∷ []))

  abbrev pub dispatch :
      QuicMessageKind
      → Envelope
      → CompanionSessionManager
      → Result Envelope × CompanionSessionManager
  dispatch hello envelope sessions = handle_hello envelope sessions
  dispatch capability_list envelope sessions = handle_capability_list envelope sessions
  dispatch permission_state envelope sessions = handle_permission_state envelope sessions
  dispatch heartbeat envelope sessions = (handle_heartbeat envelope sessions, sessions)
  dispatch unsupported envelope sessions = (
    err (
        session_error "COMPANION_SESSION_MESSAGE_UNSUPPORTED"
          ("Companion session manager does not accept message kind: " <> debug_kind unsupported)
          false),
    sessions,
  )

  unfoldable pub handle_envelope :
      Envelope → CompanionSessionManager → Result Envelope × CompanionSessionManager
  handle_envelope envelope sessions = elim (validate_quic_envelope envelope) [
    | err e ↦ (err e, sessions)
    | ok _ ↦ dispatch envelope.kind envelope sessions
  ]
