-- ===== src/Trust/Store.antt =====
-- companion/trust.rs: the trust store file. The file system's answers are arguments, and so are
-- serde_json's two functions.
pub mod Recovery
use webadbcontrol.Base.{
  ℕ, String, ◌<>◌, Bool, true, false, not, Option, none, some, List, [], ◌∷◌, ◌==ℕ◌, if◌then◌else◌,
  ◌⊎◌, inl, inr, ◌&&◌,
}
use webadbcontrol.Base.Text.{Text, show_ℕ}
use webadbcontrol.Base.Map.{Map, insert, values}
use webadbcontrol.Error.{AppError, new, with_suggestion, with_cause, Result, ok, err, ◌>>=◌, ◌>>◌}
use webadbcontrol.Trust.Fingerprint.{validate_device_id, validate_fingerprint}
use webadbcontrol.Trust.{TrustedDevice, TrustStore, empty_store, trust_store_schema_version}

pub record TrustStoreFile : Type 0 where
  pub schema_version : ℕ
  pub trusted_devices : List TrustedDevice

-- What `fs::read_to_string` answers; an error carries its text.
pub data FileRead : Type 0 where
  not_found : FileRead
  read_failed : String → FileRead
  content : String → FileRead

-- What the file system does to a save: whether the path has a parent folder to create, and the
-- error of creating it and of writing, if there is one.
pub record SaveDisk : Type 0 where
  pub has_parent : Bool
  pub create_dir : Option String
  pub write : Option String

-- serde_json on the file's shape: a text or an error, and back.
pub record Codec : Type 0 where
  pub from_str : String → String ⊎ TrustStoreFile
  pub to_string_pretty : TrustStoreFile → String ⊎ String

unfoldable pub read_error : String → AppError
unfolding new with_cause
read_error cause =
    with_cause
      (new "COMPANION_TRUST_STORE_READ_FAILED" "Core failed to read companion trust store file."
        "companion.trust" true)
      cause

unfoldable pub parse_error : String → AppError
unfolding new with_cause
parse_error cause =
    with_cause
      (new "COMPANION_TRUST_STORE_PARSE_FAILED" "Core failed to parse companion trust store JSON."
        "companion.trust" false)
      cause

unfoldable pub schema_unsupported : ℕ → AppError
unfolding new with_suggestion show_ℕ
schema_unsupported schema_version =
    with_suggestion
      (new "COMPANION_TRUST_STORE_SCHEMA_UNSUPPORTED"
        "Companion trust store schema version is not supported." "companion.trust" false)
      ("Expected schemaVersion 1, got " <> show_ℕ schema_version <> ".")

unfoldable pub save_error : String → String → Bool → String → AppError
unfolding new with_cause
save_error error_code message recoverable cause =
    with_cause (new error_code message "companion.trust" recoverable) cause

-- The loop over the devices of the file.
load_devices : (ℕ → Text) → List TrustedDevice → TrustStore → Result TrustStore
load_devices unicode_lower [] s = ok s
load_devices unicode_lower (device ∷ rest) s = do
  validate_device_id device.device_id
  validate_fingerprint unicode_lower device.certificate_fingerprint_sha256
  load_devices unicode_lower rest
      (record s { trusted_devices = insert device.device_id device s.trusted_devices })

module _ (unicode_lower : ℕ → Text) (codec : Codec) where
  load_content : String → Result TrustStore
  unfolding load_devices
  load_content text = elim (codec.from_str text) [
    | inl cause ↦ err (parse_error cause)
    | inr file ↦
        if not (file.schema_version ==ℕ trust_store_schema_version)
        then err (schema_unsupported file.schema_version)
        else load_devices unicode_lower file.trusted_devices empty_store
  ]

  unfoldable pub load_trusted_devices_from_file : FileRead → Result TrustStore
  unfolding load_content
  load_trusted_devices_from_file not_found = ok empty_store
  load_trusted_devices_from_file (read_failed cause) = err (read_error cause)
  load_trusted_devices_from_file (content text) = load_content text

-- An input or output step that fails with `e cause`.
abbrev disk_step : Option String → (String → AppError) → Result (Unit {0})
disk_step none e = ok tt
disk_step (some cause) e = err (e cause)

or_cause : String ⊎ String → (String → AppError) → Result String
or_cause (inl cause) e = err (e cause)
or_cause (inr text) e = ok text

-- The text that the file holds after a successful save.
unfoldable pub save_trusted_devices_to_file : Codec → SaveDisk → TrustStore → Result String
unfolding or_cause
save_trusted_devices_to_file codec disk s = do
  disk_step (if disk.has_parent then disk.create_dir else none) (
      save_error "COMPANION_TRUST_STORE_DIR_CREATE_FAILED"
        "Core failed to create companion trust store directory." true)
  text ←
      or_cause
        (codec.to_string_pretty (record {
          schema_version = trust_store_schema_version;
          trusted_devices = values s.trusted_devices;
        }))
        (save_error "COMPANION_TRUST_STORE_SERIALIZE_FAILED"
          "Core failed to serialize companion trust store JSON." false)
  disk_step disk.write (
      save_error "COMPANION_TRUST_STORE_WRITE_FAILED"
        "Core failed to write companion trust store file." true)
  ok text
