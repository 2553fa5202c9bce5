-- ===== src/Companion/Live/Send.antt =====
-- companion/quinn_transport.rs: `send_command_envelope`. It is two steps: what is done until the
-- command is queued, and what is done with its answer or after the time-out.
use webadbcontrol.Base.{
  ℕ, String, ◌<>◌, Bool, true, false, ◌||◌, Option, none, some, if◌then◌else◌, inl, inr,
}
use webadbcontrol.Base.Map.{lookup, insert, remove}
use webadbcontrol.Error.{new, with_cause, Result, ok, err}
use webadbcontrol.Companion.Protocol.{QuicMessageKind, error}
use webadbcontrol.Companion.Session.{SerdeJson}
use webadbcontrol.Companion.Session.Handlers.{Envelope}
use webadbcontrol.Companion.Live.{SessionHandle, LiveState, live_error}
use webadbcontrol.Companion.MediaStore.{text_field}

module _ (J : SerdeJson) where
  abbrev pub command_request_id : Envelope J → String
  command_request_id envelope = elim (text_field J envelope.payload "requestId") [
    | some request_id ↦ request_id
    | none ↦ envelope.message_id
  ]

  -- `send_command_envelope`, until it waits: the request's id, the bytes queued and the device's queue.
  unfoldable pub send_command :
      String
      → Envelope J
      → ℕ
      → (SessionHandle → Bool)
      → LiveState
      → Result (String × String × SessionHandle) × LiveState
  unfolding with_cause
  send_command device_id envelope waiter queue_is_open m = elim (lookup device_id m.sessions) [
    | none ↦ (
      err (
          live_error "COMPANION_SESSION_NOT_CONNECTED"
            ("Android companion QUIC session is not connected for device " <> device_id <> ".")
            true),
      m,
    )
    | some session ↦ elim (J.to_vec envelope) [
      | inl cause ↦ (
        err (
            with_cause
              (live_error "COMPANION_COMMAND_SERIALIZE_FAILED"
                "Core failed to serialize the Companion command envelope." false)
              cause),
        m,
      )
      | inr bytes ↦
          let request_id = command_request_id envelope in
          if queue_is_open session
          then (
            ok (request_id, bytes, session),
            record m { pending = insert request_id waiter m.pending },
          )
          else (
            err (
                live_error "COMPANION_COMMAND_SEND_FAILED"
                  "Companion QUIC control stream closed before the command was sent." true),
            record m { pending = remove request_id (insert request_id waiter m.pending) },
          )
    ]
  ]

  -- After 15 seconds without an answer.
  unfoldable pub command_timed_out : String → String → LiveState → Result J.Value × LiveState
  unfolding with_cause
  command_timed_out request_id cause m = (
    err (
        with_cause
          (live_error "COMPANION_COMMAND_TIMEOUT"
            "Companion did not return a QUIC command response within 15 seconds." true)
          cause),
    record m { pending = remove request_id m.pending },
  )

  abbrev says_not_ok : J.Value → Bool
  says_not_ok payload = elim (J.get payload "ok") [
    | none ↦ false
    | some value ↦ elim (J.as_bool value) [
      | none ↦ false
      | some said ↦ if said then false else true
    ]
  ]

  abbrev text_or : Option String → String → String
  text_or none default = default
  text_or (some s) default = s

  abbrev detail_recoverable : J.Value → Bool
  detail_recoverable detail = elim (J.get detail "recoverable") [
    | none ↦ true
    | some value ↦ elim (J.as_bool value) [ none ↦ true | some said ↦ said ]
  ]

  abbrev is_error : QuicMessageKind → Bool
  is_error error = true
  is_error _ = false

  abbrev detail_of : J.Value → J.Value
  detail_of payload = elim (J.get payload "error") [ none ↦ payload | some value ↦ value ]

  -- What the answer means to the caller.
  unfoldable pub command_result : Envelope J → Result J.Value
  unfolding new
  command_result response =
      if is_error response.kind || says_not_ok response.payload
      then (let detail = detail_of response.payload in
          err (
            new (text_or (text_field J detail "errorCode") "COMPANION_COMMAND_FAILED")
              (text_or (text_field J detail "message") "Android companion command failed.")
              (text_or (text_field J detail "module") "companion.command")
              (detail_recoverable detail)))
      else ok response.payload
