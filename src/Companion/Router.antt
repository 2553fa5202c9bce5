-- ===== src/Companion/Router.antt =====
-- companion/router.rs: how a command of a client becomes an envelope for the companion, and the three
-- routers. The transport is what sends an envelope and waits for the answer.
pub mod Requests
use webadbcontrol.Base.{
  ℕ, String, ◌<>◌, ◌==◌, Bool, true, false, Option, none, some, List, [], ◌∷◌, if◌then◌else◌,
}
use webadbcontrol.Base.Map.{Map, lookup, insert}
use webadbcontrol.Error.{AppError, new, with_suggestion, Result, ok, err}
use webadbcontrol.Companion.Protocol.{
  QuicEnvelope, control, command_request, companion_protocol, companion_protocol_version,
}
use webadbcontrol.Companion.Session.{SerdeJson}
use webadbcontrol.Companion.Session.Handlers.{Envelope}

pub record CompanionCommandDispatch (Value : Type 0) : Type 0 where
  pub request_id : String
  pub device_id : String
  pub capability_id : String
  pub operation : String
  pub args : Value

pub data CompanionCommandStatus : Type 0 where
  dispatched completed : CompanionCommandStatus

pub record CompanionCommandResponse (Value : Type 0) : Type 0 where
  pub request_id : String
  pub device_id : String
  pub capability_id : String
  pub operation : String
  pub status : CompanionCommandStatus
  pub envelope : Option (QuicEnvelope Value)
  pub result : Value

pub data InMemoryDispatchMode : Type 0 where
  dispatch_only complete_immediately : InMemoryDispatchMode

pub record InMemoryCompanionSession : Type 0 where
  pub device_id : String
  pub dispatch_mode : InMemoryDispatchMode

abbrev pub InMemoryCompanionCommandRouter : Type 0
InMemoryCompanionCommandRouter = Map InMemoryCompanionSession

-- Collected from the list: of two sessions of a device the later one stays.
abbrev collected :
    List InMemoryCompanionSession → InMemoryCompanionCommandRouter → InMemoryCompanionCommandRouter
collected [] router = router
collected (session ∷ sessions) router = collected sessions (insert session.device_id session router)

unfoldable pub new_router : List InMemoryCompanionSession → InMemoryCompanionCommandRouter
new_router sessions = collected sessions []

unfoldable pub no_session : String → AppError
unfolding new with_suggestion
no_session device_id =
    with_suggestion
      (new "COMPANION_SESSION_NOT_CONNECTED"
        ("Android companion QUIC session is not connected for device " <> device_id <> ".")
        "companion.router" true)
      "Complete companion pairing and QUIC hello/helloAck before invoking capabilities."

module _ (J : SerdeJson) where
  -- The payload is the serialized `CompanionCommandRequest`, of three texts and a value.
  unfoldable pub build_command_request_envelope : CompanionCommandDispatch J.Value → Envelope J
  build_command_request_envelope command = record {
    protocol = companion_protocol;
    version = companion_protocol_version;
    message_id = "command-" <> command.request_id;
    trace_id = some command.request_id;
    device_id = some command.device_id;
    channel = control;
    kind = command_request;
    payload = J.object (
        ("requestId", J.text command.request_id)
        ∷ ("capabilityId", J.text command.capability_id)
        ∷ ("operation", J.text command.operation)
        ∷ ("args", command.args)
        ∷ []);
  }

  abbrev answer_to :
      CompanionCommandDispatch J.Value
      → CompanionCommandStatus
      → J.Value
      → CompanionCommandResponse J.Value
  answer_to command status result = record {
    request_id = command.request_id;
    device_id = command.device_id;
    capability_id = command.capability_id;
    operation = command.operation;
    status = status;
    envelope = some (build_command_request_envelope command);
    result = result;
  }

  -- `TransportCompanionCommandRouter::dispatch`
  unfoldable pub transport_dispatch :
      (String → Envelope J → Result J.Value)
      → CompanionCommandDispatch J.Value
      → Result (CompanionCommandResponse J.Value)
  transport_dispatch send_command_envelope command =
      elim (send_command_envelope command.device_id (build_command_request_envelope command)) [
        | err e ↦ err e
        | ok result ↦ ok (answer_to command dispatched result)
      ]

  -- `DisconnectedCompanionCommandRouter::dispatch`
  abbrev pub disconnected_dispatch :
      CompanionCommandDispatch J.Value → Result (CompanionCommandResponse J.Value)
  disconnected_dispatch command = err (no_session command.device_id)

  abbrev pub session_dispatch :
      InMemoryDispatchMode → CompanionCommandDispatch J.Value → CompanionCommandResponse J.Value
  session_dispatch dispatch_only command = answer_to command dispatched (
      J.object (
        ("dispatched", J.boolean true)
        ∷ ("transport", J.text "quic-control")
        ∷ ("messageId", J.text ("command-" <> command.request_id))
        ∷ []))
  session_dispatch complete_immediately command = answer_to command completed (
      J.object (
        ("dispatched", J.boolean true)
        ∷ ("completed", J.boolean true)
        ∷ ("transport", J.text "in-memory-companion-session")
        ∷ []))

  -- `InMemoryCompanionCommandRouter::dispatch`
  unfoldable pub in_memory_dispatch :
      InMemoryCompanionCommandRouter
      → CompanionCommandDispatch J.Value
      → Result (CompanionCommandResponse J.Value)
  in_memory_dispatch router command = elim (lookup command.device_id router) [
    | none ↦ err (no_session command.device_id)
    | some session ↦ ok (session_dispatch session.dispatch_mode command)
  ]
