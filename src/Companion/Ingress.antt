-- ===== src/Companion/Ingress.antt =====
-- companion/ingress.rs, and companion/listener.rs in front of it: what Core does with an envelope
-- that arrives. The ingress of the live transport is made by `new`, which gives it no media store; its
-- media messages are then only counted.
use webadbcontrol.Base.{
  ℕ, suc, String, ◌<>◌, Bool, true, false, Option, none, some, List, [], ◌∷◌, if◌then◌else◌, inl,
  inr,
}
use webadbcontrol.Error.{AppError, new, with_cause, Result, ok, err}
use webadbcontrol.Companion.Protocol.{
  QuicChannel, control, data_channel, media, QuicMessageKind, hello, hello_ack, heartbeat,
  capability_list, permission_state, command_request, command_response, stream_open, stream_chunk,
  stream_close, error, companion_protocol, companion_protocol_version, validate_quic_envelope,
}
use webadbcontrol.Companion.MediaStore.{
  CompanionMediaStore, StoredMediaChunk, is_stream_chunk, store_envelope,
}
use webadbcontrol.Companion.Session.{SerdeJson, CompanionSessionManager}
use webadbcontrol.Companion.Session.Handlers.{Envelope, handle_envelope}

pub record CompanionIngress : Type 0 where
  pub session_manager : CompanionSessionManager
  pub media_store : Option CompanionMediaStore
  pub media_chunk_count : ℕ

abbrev pub new_ingress : CompanionSessionManager → Option CompanionMediaStore → CompanionIngress
new_ingress session_manager media_store = record {
  session_manager = session_manager;
  media_store = media_store;
  media_chunk_count = 0;
}

unfoldable pub ingress_error : String → String → AppError
unfolding new
ingress_error error_code message = new error_code message "companion.ingress" false

-- The kind's serialized name.
abbrev pub kind_name : QuicMessageKind → String
kind_name hello = "hello"
kind_name hello_ack = "helloAck"
kind_name heartbeat = "heartbeat"
kind_name capability_list = "capabilityList"
kind_name permission_state = "permissionState"
kind_name command_request = "commandRequest"
kind_name command_response = "commandResponse"
kind_name stream_open = "streamOpen"
kind_name stream_chunk = "streamChunk"
kind_name stream_close = "streamClose"
kind_name error = "error"

abbrev is_media : QuicChannel → Bool
is_media control = false
is_media data_channel = false
is_media media = true

abbrev pub counted : QuicMessageKind → ℕ → ℕ
counted stream_chunk n = suc n
counted _ n = n

module _ (J : SerdeJson) where
  abbrev pub optional_text : Option String → J.Value
  optional_text none = J.null
  optional_text (some s) = J.text s

  abbrev pub error_envelope : Option String → Option String → Option String → AppError → Envelope J
  error_envelope trace_id device_id source_message_id e = record {
    protocol = companion_protocol;
    version = companion_protocol_version;
    message_id = elim source_message_id [
      | none ↦ "ingress-error"
      | some message_id ↦ "ingress-error-" <> message_id
    ];
    trace_id = trace_id;
    device_id = device_id;
    channel = control;
    kind = error;
    payload = J.object (
        ("errorCode", J.text e.error_code)
        ∷ ("message", J.text e.message)
        ∷ ("module", J.text e.module_name)
        ∷ ("recoverable", J.boolean e.recoverable)
        ∷ ("suggestion", optional_text e.suggestion)
        ∷ []);
  }

  abbrev ack_envelope : Envelope J → List (String × J.Value) → Envelope J
  ack_envelope envelope payload = record {
    protocol = companion_protocol;
    version = companion_protocol_version;
    message_id = "ingress-ack-" <> envelope.message_id;
    trace_id = envelope.trace_id;
    device_id = envelope.device_id;
    channel = control;
    kind = command_response;
    payload = J.object payload;
  }

  abbrev to_sessions : Envelope J → CompanionIngress → Result (Envelope J) × CompanionIngress
  to_sessions envelope ingress =
      let (answer, sessions) = handle_envelope J envelope ingress.session_manager in
      (answer, record ingress { session_manager = sessions })

  abbrev stored_fields : Option StoredMediaChunk → List (String × J.Value)
  stored_fields none = []
  stored_fields (some chunk) =
      ("stored", J.boolean true)
      ∷ ("storedSessionId", J.text chunk.session_id)
      ∷ ("storedChunkIndex", J.number chunk.chunk_index)
      ∷ ("storedSizeBytes", J.number chunk.size_bytes)
      ∷ ("storedPath", J.text chunk.path)
      ∷ []

  -- A chunk is counted, and stored if there is a store.
  abbrev pub stored_chunk :
      Envelope J
      → Option CompanionMediaStore
      → Result (Option StoredMediaChunk) × Option CompanionMediaStore
  stored_chunk envelope none = (ok none, none)
  stored_chunk envelope (some store) =
      let (result, after) = store_envelope J envelope store in (result, some after)

  abbrev pub media_ack : Envelope J → Option StoredMediaChunk → ℕ → Envelope J
  media_ack envelope stored count = ack_envelope envelope (
      ("accepted", J.boolean true)
      ∷ ("media", J.boolean true)
      ∷ ("receivedKind", J.text (kind_name envelope.kind))
      ∷ ("receivedChunkCount", J.number count)
      ∷ stored_fields stored)

  abbrev pub acknowledged_media :
      Envelope J
      → Result (Option StoredMediaChunk) × Option CompanionMediaStore
      → CompanionIngress
      → Result (Envelope J) × CompanionIngress
  acknowledged_media envelope (err e, store) ingress =
      (err e, record ingress { media_store = store })
  acknowledged_media envelope (ok stored, store) ingress = (
    ok (media_ack envelope stored ingress.media_chunk_count),
    record ingress { media_store = store },
  )

  abbrev pub handle_media_envelope :
      Envelope J → CompanionIngress → Result (Envelope J) × CompanionIngress
  handle_media_envelope envelope ingress =
      if is_media envelope.channel
      then (let counting = record ingress {
        media_chunk_count = counted envelope.kind ingress.media_chunk_count;
      } in
          if is_stream_chunk J envelope.kind
          then acknowledged_media envelope (stored_chunk envelope ingress.media_store) counting
          else (ok (media_ack envelope none counting.media_chunk_count), counting))
      else (
        err (
            ingress_error "COMPANION_MEDIA_CHANNEL_INVALID"
              "Media stream messages must use the media channel."),
        ingress,
      )

  abbrev ack_terminal_response : Envelope J → Result (Envelope J)
  ack_terminal_response envelope = ok (
      ack_envelope envelope (
        ("accepted", J.boolean true)
        ∷ ("terminalResponse", J.boolean true)
        ∷ ("receivedKind", J.text (kind_name envelope.kind))
        ∷ []))

  abbrev wrong_direction : Result (Envelope J)
  wrong_direction = err (
      ingress_error "COMPANION_INGRESS_MESSAGE_UNSUPPORTED"
        "Core ingress received a message kind that is only valid in the opposite direction.")

  abbrev pub by_kind :
      QuicMessageKind → Envelope J → CompanionIngress → Result (Envelope J) × CompanionIngress
  by_kind hello envelope ingress = to_sessions envelope ingress
  by_kind capability_list envelope ingress = to_sessions envelope ingress
  by_kind permission_state envelope ingress = to_sessions envelope ingress
  by_kind heartbeat envelope ingress = to_sessions envelope ingress
  by_kind stream_open envelope ingress = handle_media_envelope envelope ingress
  by_kind stream_chunk envelope ingress = handle_media_envelope envelope ingress
  by_kind stream_close envelope ingress = handle_media_envelope envelope ingress
  by_kind command_response envelope ingress = (ack_terminal_response envelope, ingress)
  by_kind error envelope ingress = (ack_terminal_response envelope, ingress)
  by_kind hello_ack envelope ingress = (wrong_direction, ingress)
  by_kind command_request envelope ingress = (wrong_direction, ingress)

  unfoldable pub dispatch_envelope :
      Envelope J → CompanionIngress → Result (Envelope J) × CompanionIngress
  dispatch_envelope envelope ingress = elim (validate_quic_envelope envelope) [
    | err e ↦ (err e, ingress)
    | ok _ ↦ by_kind envelope.kind envelope ingress
  ]

  -- An error becomes the answer: this never fails.
  unfoldable pub ingress_handle_envelope :
      Envelope J → CompanionIngress → Envelope J × CompanionIngress
  ingress_handle_envelope envelope ingress =
      let (answer, after) = dispatch_envelope envelope ingress in
      (
        elim answer [
          | ok response ↦ response
          | err e ↦ error_envelope envelope.trace_id envelope.device_id (some envelope.message_id) e
        ],
        after,
      )

  abbrev pub invalid_json : String → AppError
  invalid_json cause =
      with_cause
        (ingress_error "COMPANION_INGRESS_INVALID_JSON"
          "Companion ingress received invalid JSON envelope.")
        cause

  -- The answer, before it is encoded.
  unfoldable pub handle_json_bytes : String → CompanionIngress → Envelope J × CompanionIngress
  unfolding with_cause ingress_error
  handle_json_bytes bytes ingress = elim (J.envelope_from_slice bytes) [
    | inl cause ↦ (error_envelope none none none (invalid_json cause), ingress)
    | inr envelope ↦ ingress_handle_envelope envelope ingress
  ]
