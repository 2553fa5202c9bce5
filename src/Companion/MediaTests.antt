-- ===== src/Companion/MediaTests.antt =====
-- The media store and the trusted ingress on concrete inputs: the cases of the tests in
-- companion/media_store.rs and companion/trusted_ingress.rs, and the theorems there.
use webadbcontrol.Base.{
  ℕ, ◌≡◌, refl, String, ◌==◌, ◌<>◌, true, Option, none, some, List, [], ◌∷◌, all, inr, ◌⊎◌, filter,
  if◌then◌else◌,
}
use webadbcontrol.Base.Text.{Text, codes, is_ascii_alphanumeric, dec_padded}
use webadbcontrol.Base.Map.{lookup, insert, remove}
use webadbcontrol.Error.{AppError, err}
use webadbcontrol.Companion.Ingress.{new_ingress}
use webadbcontrol.Companion.MediaStore.{
  CompanionMediaStore, MediaDisk, is_safe, safe_path_segment, chunk_name, next_chunk_index,
  chunk_of, store_envelope,
}
use webadbcontrol.Companion.MediaStore.History as History
use webadbcontrol.Companion.MediaStore.Confined.{store_envelope-Confined}
use webadbcontrol.Companion.Protocol.{stream_chunk}
use webadbcontrol.Companion.Session.{SerdeJson}
use webadbcontrol.Companion.Session.Handlers.{Envelope}
use webadbcontrol.Companion.Tests.{Document, nothing, string, documents, envelope_of}
use webadbcontrol.Companion.TrustedIngress.{TrustedCompanionIngress, trusted_handle_envelope}
use webadbcontrol.Companion.TrustedIngress.Guard.{Vouched, trusted_handle_envelope-Vouched}
use webadbcontrol.Trust.Log.{Call, begins, confirms, run}

-- A chunk's payload: each field of it.
abbrev chunk_field : Document → String → Option Document
chunk_field nothing name =
    if name == "sessionId"
    then some (string "../session 1")
    else if name == "encoding"
    then some (string "base64")
    else if name == "data"
    then some (string "AQI=")
    else if name == "certificateFingerprintSha256"
    then some (string "0123456789abcdef0123456789abcdef0123456789abcdef0123456789abcdef")
    else none
chunk_field _ name = none

abbrev chunks : SerdeJson
chunks = record documents { get = chunk_field; decode_base64 = λ s. inr (1 ∷ 2 ∷ []) }

abbrev takes : ℕ → MediaDisk
takes n = record {
  sees_dir = true;
  read_dir = none;
  read_entry = none;
  create_dir = none;
  write = none;
  left_over = none;
}

abbrev empty_store : CompanionMediaStore
empty_store = record {
  files = [];
  disk = takes;
  calls = 0;
  path_of = λ segment name. "media/" <> segment <> "/" <> name;
}

abbrev chunk : Envelope chunks
chunk = envelope_of "device-1" stream_chunk nothing

abbrev once : CompanionMediaStore
once = (store_envelope chunks chunk empty_store).1

-- Two chunks of one session are two files of one directory.
store_test :
    (store_envelope chunks chunk once).1.files
    ≡ (
      "___session_1",
      ("chunk-00000000000000000000.bin", 1 ∷ 2 ∷ [])
          ∷ ("chunk-00000000000000000001.bin", 1 ∷ 2 ∷ [])
          ∷ [],
    )
      ∷ []
unfolding store_envelope chunk_of next_chunk_index chunk_name safe_path_segment
    is_ascii_alphanumeric dec_padded lookup insert remove filter
store_test = refl

store_envelope-Confined_example :
    (lookup "../session 1" (store_envelope chunks chunk once).1.files
      ≡ lookup "../session 1" once.files)
    ⊎ (all is_safe (codes "../session 1") ≡ true)
store_envelope-Confined_example = store_envelope-Confined chunks chunk once "../session 1"

abbrev first_chunk : String
first_chunk = "chunk-00000000000000000000.bin"

-- No character outside ASCII has another lower-case form.
abbrev ascii_table : ℕ → Text
ascii_table c = c ∷ []

abbrev paired : List Call
paired =
    confirms "pair-00000000000000ab" "004217" 2000
    ∷ begins
        (record {
          device_id = "device-1";
          device_name = "Pixel Test";
          certificate_fingerprint_sha256 =
              codes "0123456789abcdef0123456789abcdef0123456789abcdef0123456789abcdef";
        })
        (record { id_bits = 0xab; code_number = 4217 }) 1000
    ∷ []

abbrev trusted : TrustedCompanionIngress
trusted = record {
  ingress = new_ingress [] (some empty_store);
  trust_store = run ascii_table paired;
  now_unix_ms = 3000;
}

trusted_handle_envelope-Vouched_example :
    ((e : AppError) × (trusted_handle_envelope ascii_table chunks chunk trusted ≡ (err e, trusted)))
    ⊎ Vouched ascii_table chunks paired 3000 chunk
trusted_handle_envelope-Vouched_example =
    trusted_handle_envelope-Vouched ascii_table chunks paired chunk trusted refl refl
