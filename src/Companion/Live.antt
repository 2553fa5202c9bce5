-- ===== src/Companion/Live.antt =====
-- companion/quinn_transport.rs: `LiveCompanionTransport`, which owns the live connections. A lock is
-- held for one read or write, so each operation is one step, and a command is two: what is done
-- until the command is sent, and what is done with its answer.
pub mod Routes
pub mod Stale
pub mod Command
pub mod Send
use webadbcontrol.Base.{
  ℕ, ◌≡◌, String, ◌==◌, ◌<>◌, Bool, true, false, Option, none, some, List, [], ◌∷◌, ◌==ℕ◌,
  if◌then◌else◌, ◌⊎◌, inl, inr, is_some,
}
use webadbcontrol.Base.Map.{Map, lookup, insert, remove}
use webadbcontrol.Error.{AppError, new, with_cause, Result, ok, err, fail_if, ◌>>=◌, ◌>>◌}
use webadbcontrol.Companion.Protocol.{
  QuicMessageKind, hello, hello_ack, heartbeat, capability_list, permission_state, command_request,
  command_response, stream_open, stream_chunk, stream_close, error, QuicEnvelope,
  validate_quic_envelope,
}
use webadbcontrol.Companion.Registry.{CompanionDevice, CompanionRegistry, upsert, remove_device}
use webadbcontrol.Companion.MediaStore.{text_field}
use webadbcontrol.Companion.Session.{SerdeJson, devices}
use webadbcontrol.Companion.Session.Handlers.{Envelope}
use webadbcontrol.Companion.Ingress.{CompanionIngress, ingress_handle_envelope}

-- `outgoing` names the queue to a connection's writer.
pub record SessionHandle : Type 0 where
  pub connection_id : ℕ
  pub outgoing : ℕ

-- A pending command is the waiter that its answer is sent to.
pub record LiveState : Type 0 where
  pub registry : CompanionRegistry
  pub ingress : CompanionIngress
  pub sessions : Map SessionHandle
  pub pending : Map ℕ

unfoldable pub live_error : String → String → Bool → AppError
unfolding new
live_error error_code message recoverable = new error_code message "companion.quinn" recoverable

unfoldable pub control_closed : AppError
unfolding live_error
control_closed =
    live_error "COMPANION_QUIC_CONTROL_CLOSED"
      "Companion QUIC control stream closed before Core could reply." true

abbrev pub is_answer : QuicMessageKind → Bool
is_answer command_response = true
is_answer error = true
is_answer _ = false

abbrev pub is_hello : QuicMessageKind → Bool
is_hello hello = true
is_hello _ = false

abbrev pub is_heartbeat : QuicMessageKind → Bool
is_heartbeat heartbeat = true
is_heartbeat _ = false

unfoldable pub upsert_all : List CompanionDevice → CompanionRegistry → CompanionRegistry
upsert_all [] registry = registry
upsert_all (d ∷ ds) registry = upsert_all ds (upsert d registry)

abbrev pub routed : Bool → Option String → SessionHandle → Map SessionHandle → Map SessionHandle
routed true (some device_id) handle sessions = insert device_id handle sessions
routed true none handle sessions = sessions
routed false device_id handle sessions = sessions

-- `disconnect`; a device belongs to the connection that its handle names.
abbrev pub belongs : ℕ → Option SessionHandle → Bool
belongs connection_id none = false
belongs connection_id (some handle) = handle.connection_id ==ℕ connection_id

unfoldable pub disconnect : ℕ → Option String → LiveState → LiveState
disconnect connection_id none m = m
disconnect connection_id (some device_id) m =
    if belongs connection_id (lookup device_id m.sessions)
    then record m {
      sessions = remove device_id m.sessions;
      registry = remove_device device_id m.registry;
    }
    else m

unfoldable pub connection_devices : ℕ → Map SessionHandle → List String
connection_devices connection_id [] = []
connection_devices connection_id ((device_id, handle) ∷ sessions) =
    let rest = connection_devices connection_id sessions in
    if handle.connection_id ==ℕ connection_id then device_id ∷ rest else rest

unfoldable pub disconnect_all : ℕ → List String → LiveState → LiveState
disconnect_all connection_id [] m = m
disconnect_all connection_id (device_id ∷ ids) m =
    disconnect_all connection_id ids (disconnect connection_id (some device_id) m)

unfoldable pub disconnect_connection : ℕ → LiveState → LiveState
disconnect_connection connection_id m =
    disconnect_all connection_id (connection_devices connection_id m.sessions) m

module _ (J : SerdeJson) where
  -- What a step sends: bytes to the connection's queue, and an answer to a waiter.
  pub record Sent : Type 0 where
    pub queued : Option String
    pub delivered : Option (ℕ × Envelope J)

  abbrev nothing : Sent
  nothing = record { queued = none; delivered = none }

  abbrev pub answered_request : Envelope J → String
  answered_request envelope = elim (text_field J envelope.payload "requestId") [
    | some request_id ↦ request_id
    | none ↦ elim envelope.trace_id [ some trace_id ↦ trace_id | none ↦ "" ]
  ]

  abbrev delivery : Envelope J → Option ℕ → Sent
  delivery envelope none = nothing
  delivery envelope (some waiter) = record { queued = none; delivered = some (waiter, envelope) }

  -- The reply to the device; a heartbeat gets none.
  unfoldable pub reply : Bool → Bool → Envelope J → Option String → Result (Option String) × Sent
  unfolding with_cause
  reply true queue_is_open response device_id = (ok device_id, nothing)
  reply false queue_is_open response device_id = elim (J.to_vec response) [
    | inl cause ↦ (
      err (
          with_cause
            (live_error "COMPANION_QUIC_RESPONSE_SERIALIZE_FAILED"
              "Core failed to serialize a Companion QUIC response." true)
            cause),
      nothing,
    )
    | inr encoded ↦
        if queue_is_open
        then (ok device_id, record { queued = some encoded; delivered = none })
        else (err control_closed, nothing)
  ]

  -- `handle` is the connection's, with its queue.
  unfoldable pub accept_envelope :
      SessionHandle → Bool → Envelope J → LiveState → Result (Option String) × Sent × LiveState
  accept_envelope handle queue_is_open envelope m = elim (validate_quic_envelope envelope) [
    | err e ↦ (err e, nothing, m)
    | ok _ ↦
        if is_answer envelope.kind
        then (let request_id = answered_request envelope in
            (
              ok none,
              delivery envelope (lookup request_id m.pending),
              record m { pending = remove request_id m.pending },
            ))
        else (let (response, ingress) = ingress_handle_envelope J envelope m.ingress in
            let (result, sent) =
              reply (is_heartbeat envelope.kind) queue_is_open response envelope.device_id in
            (
              result,
              sent,
              record m {
                ingress = ingress;
                registry = upsert_all (devices ingress.session_manager) m.registry;
                sessions = routed (is_hello envelope.kind) envelope.device_id handle m.sessions;
              },
            ))
  ]
