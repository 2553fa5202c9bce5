-- ===== src/Companion/Protocol.antt =====
-- companion/protocol.rs: the envelope and its check. `Value` is `serde_json::Value`.
use webadbcontrol.Base.{ℕ, String, ◌==◌, ◌<>◌, false, not, Option, List, ◌==ℕ◌}
use webadbcontrol.Base.Text.{is_blank, show_ℕ}
use webadbcontrol.Error.{AppError, new, Result, ◌>>◌, fail_if}

abbrev pub companion_protocol : String
companion_protocol = "adbcontrol-companion-quic"

abbrev pub companion_protocol_version : ℕ
companion_protocol_version = 1

pub record CompanionConnectionInfo : Type 0 where
  pub listen_address : String
  pub server_name : String
  pub certificate_der_base64 : String
  pub certificate_fingerprint_sha256 : String

pub data QuicChannel : Type 0 where
  control data_channel media : QuicChannel

pub data QuicMessageKind : Type 0 where
  hello hello_ack heartbeat capability_list permission_state command_request command_response
        stream_open stream_chunk stream_close error :
      QuicMessageKind

pub record QuicEnvelope (Value : Type 0) : Type 0 where
  pub protocol : String
  pub version : ℕ
  pub message_id : String
  pub trace_id : Option String
  pub device_id : Option String
  pub channel : QuicChannel
  pub kind : QuicMessageKind
  pub payload : Value

pub record CompanionHello : Type 0 where
  pub app_version : String
  pub device_id : String
  pub device_name : String
  pub android_sdk : ℕ
  pub supported_protocol_versions : List ℕ

unfoldable pub protocol_error : String → String → AppError
unfolding new
protocol_error error_code message = new error_code message "companion.protocol" false

unfoldable pub validate_quic_envelope : {Value : Type 0} → QuicEnvelope Value → Result (Unit {0})
validate_quic_envelope envelope = do
  fail_if (not (envelope.protocol == companion_protocol)) (
      protocol_error "COMPANION_PROTOCOL_MISMATCH"
        "Companion QUIC envelope protocol does not match ADBControl.")
  fail_if (not (envelope.version ==ℕ companion_protocol_version)) (
      protocol_error "COMPANION_PROTOCOL_VERSION_UNSUPPORTED"
        ("Unsupported companion protocol version: " <> show_ℕ envelope.version <> "."))
  fail_if (is_blank envelope.message_id) (
      protocol_error "COMPANION_MESSAGE_ID_MISSING"
        "Companion QUIC envelope messageId must not be empty.")
