-- ===== src/Companion/MediaStore.antt =====
-- companion/media_store.rs: the media chunks that Core keeps, one directory for a media session and
-- one file for a chunk.
pub mod Confined
pub mod Names
pub mod Kept
pub mod History
use Prim.Native.Char.{code}
use webadbcontrol.Base.{
  ℕ, suc, ◌+◌, String, ◌==◌, ◌<>◌, starts_with, Bool, true, false, not, ◌&&◌, ◌||◌, Option, none,
  some, List, [], ◌∷◌, ◌++◌, filter, length, ◌==ℕ◌, if◌then◌else◌, is_some, ◌⊎◌, inl, inr,
}
use webadbcontrol.Base.Text.{Text, is_ascii_alphanumeric, dec_padded}
use webadbcontrol.Base.Map.{Map, lookup, insert, keys}
use webadbcontrol.Error.{AppError, new, with_cause, Result, ok, err, ◌>>=◌, ◌>>◌, or_fail, fail_if}
use webadbcontrol.Companion.Protocol.{
  QuicMessageKind, hello, hello_ack, heartbeat, capability_list, permission_state, command_request,
  command_response, stream_open, stream_chunk, stream_close, error,
}
use webadbcontrol.Companion.Session.{SerdeJson}
use webadbcontrol.Companion.Session.Handlers.{Envelope}

-- What the disk answers while one chunk is stored: whether the directory, if it is there, can be
-- seen, and the failure of each step. A write that fails may leave a file with some of the bytes.
pub record MediaDisk : Type 0 where
  pub sees_dir : Bool
  pub read_dir : Option String
  pub read_entry : Option String
  pub create_dir : Option String
  pub write : Option String
  pub left_over : Option Text

-- The directories under the root, and their files. `disk` answers the calls in turn, and `calls` were
-- made. `path_of` joins the root, a directory and a file.
pub record CompanionMediaStore : Type 0 where
  pub files : Map (Map Text)
  pub disk : ℕ → MediaDisk
  pub calls : ℕ
  pub path_of : String → String → String

pub record StoredMediaChunk : Type 0 where
  pub session_id : String
  pub chunk_index : ℕ
  pub path : String
  pub size_bytes : ℕ

unfoldable pub media_error : String → String → Bool → AppError
unfolding new
media_error error_code message recoverable =
    new error_code message "companion.media_store" recoverable

abbrev pub is_safe : ℕ → Bool
is_safe c = is_ascii_alphanumeric c || c ==ℕ b'-' || c ==ℕ b'_'

unfoldable pub safe_path_segment : String → String
unfolding is_ascii_alphanumeric
safe_path_segment String.[] = ""
safe_path_segment (String.◌∷◌ c s) =
    let rest = safe_path_segment s in if is_safe (code c) then String.◌∷◌ c rest else "_" <> rest

unfoldable pub chunk_name : ℕ → String
chunk_name index = "chunk-" <> dec_padded 20 index <> ".bin"

abbrev pub is_chunk : String → Bool
is_chunk name = starts_with name "chunk-"

abbrev pub dir_of : Option (Map Text) → Map Text
dir_of none = []
dir_of (some dir) = dir

-- The names in a directory. An empty segment is the root, which also holds the other directories.
abbrev pub entries : String → Map (Map Text) → List String
entries segment files =
    let own = keys (dir_of (lookup segment files)) in
    if segment == "" then own ++ filter (λ d. not (d == "")) (keys files) else own

abbrev pub dir_exists : String → Map (Map Text) → Bool
dir_exists segment files =
    is_some (lookup segment files) || (segment == "" && not (length (keys files) ==ℕ 0))

unfoldable pub next_chunk_index : MediaDisk → String → Map (Map Text) → Result ℕ
unfolding media_error with_cause
next_chunk_index disk segment files =
    if not (disk.sees_dir && dir_exists segment files) then ok 0 else elim disk.read_dir [
      | some cause ↦ err (
          with_cause
            (media_error "COMPANION_MEDIA_STORE_READ_FAILED"
              "Core failed to read media session directory." true)
            cause)
      | none ↦ elim disk.read_entry [
        | some cause ↦ err (
            with_cause
              (media_error "COMPANION_MEDIA_STORE_READ_FAILED"
                "Core failed to read media chunk entry." true)
              cause)
        | none ↦ ok (length (filter is_chunk (entries segment files)))
      ]
    ]

abbrev pub with_files : Map (Map Text) → CompanionMediaStore → CompanionMediaStore
with_files files store = record store { files = files; calls = suc store.calls }

abbrev pub put : String → String → Text → Map (Map Text) → Map (Map Text)
put segment name bytes files =
    insert segment (insert name bytes (dir_of (lookup segment files))) files

-- The files after a failed write: the directory is there, and perhaps a file.
abbrev pub left_behind : Option Text → String → String → Map (Map Text) → Map (Map Text)
left_behind none segment name files = insert segment (dir_of (lookup segment files)) files
left_behind (some part) segment name files = put segment name part files

-- From the chunk's index on: the directory is made, and the file is written. The three answers are
-- the failures of the steps, and what a failed write leaves.
abbrev pub written :
    Option String
    → Option String
    → Option Text
    → String
    → Text
    → ℕ
    → CompanionMediaStore
    → Result (Option StoredMediaChunk) × CompanionMediaStore
written (some cause) write left_over session_id bytes index store = (
  err (
      with_cause
        (media_error "COMPANION_MEDIA_STORE_DIR_CREATE_FAILED"
          "Core failed to create media session directory." true)
        cause),
  with_files store.files store,
)
written none (some cause) left_over session_id bytes index store = (
  err (
      with_cause
        (media_error "COMPANION_MEDIA_CHUNK_WRITE_FAILED" "Core failed to write media chunk." true)
        cause),
  with_files (left_behind left_over (safe_path_segment session_id) (chunk_name index) store.files)
      store,
)
written none none left_over session_id bytes index store =
    let segment = safe_path_segment session_id in
    let name = chunk_name index in
    (
      ok (
          some (record {
            session_id = session_id;
            chunk_index = index;
            path = store.path_of segment name;
            size_bytes = length bytes;
          })),
      with_files (put segment name bytes store.files) store,
    )

abbrev pub write_chunk :
    MediaDisk
    → String
    → Text
    → ℕ
    → CompanionMediaStore
    → Result (Option StoredMediaChunk) × CompanionMediaStore
write_chunk disk = written disk.create_dir disk.write disk.left_over

module _ (J : SerdeJson) where
  abbrev pub text_field : J.Value → String → Option String
  text_field value name = elim (J.get value name) [ none ↦ none | some field ↦ J.as_str field ]

  abbrev pub required_string : J.Value → String → Result String
  required_string payload key = or_fail (text_field payload key) (
      media_error "COMPANION_MEDIA_PAYLOAD_INVALID"
        ("Media streamChunk payload is missing string field " <> key <> ".") false)

  -- The session's id and the chunk's bytes.
  unfoldable pub chunk_of : J.Value → Result (String × Text)
  chunk_of payload = do
    session_id ← required_string payload "sessionId"
    encoding ← required_string payload "encoding"
    fail_if (not (encoding == "base64")) (
        media_error "COMPANION_MEDIA_ENCODING_UNSUPPORTED"
          "Core media store only accepts base64 media chunks in JSON envelopes." false)
    field ← required_string payload "data"
    elim (J.decode_base64 field) [
      | inl cause ↦ err (
          with_cause
            (media_error "COMPANION_MEDIA_CHUNK_BASE64_INVALID"
              "Core failed to decode base64 media chunk." false)
            cause)
      | inr bytes ↦ ok (session_id, bytes)
    ]

  abbrev pub is_stream_chunk : QuicMessageKind → Bool
  is_stream_chunk stream_chunk = true
  is_stream_chunk _ = false

  unfoldable pub store_envelope :
      Envelope J → CompanionMediaStore → Result (Option StoredMediaChunk) × CompanionMediaStore
  store_envelope envelope store =
      if not (is_stream_chunk envelope.kind)
      then (ok none, store)
      else elim (chunk_of envelope.payload) [
        | err e ↦ (err e, store)
        | ok (session_id, bytes) ↦
            let disk = store.disk store.calls in
            elim (next_chunk_index disk (safe_path_segment session_id) store.files) [
              | err e ↦ (err e, with_files store.files store)
              | ok index ↦ write_chunk disk session_id bytes index store
            ]
      ]
