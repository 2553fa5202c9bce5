-- ===== src/Trust/Fingerprint.antt =====
-- companion/trust.rs: the two validations of a pairing request, and the normal form of a
-- certificate fingerprint. A fingerprint is walked character by character, so it is a `Text`.
use webadbcontrol.Base.{
  ℕ, ◌+◌, String, Bool, false, not, ◌||◌, [], ◌∷◌, ◌++◌, ltb, ◌==ℕ◌, all, if◌then◌else◌,
}
use webadbcontrol.Base.Text.{
  Text, is_blank, text_len, between, is_ascii_whitespace, is_ascii_hexdigit,
}
use webadbcontrol.Error.{AppError, new, Result, ok, err}

unfoldable pub device_id_missing : AppError
unfolding new
device_id_missing =
    new "COMPANION_PAIRING_DEVICE_ID_MISSING" "Companion pairing requires a non-empty deviceId."
      "companion.trust" false

unfoldable pub fingerprint_invalid : AppError
unfolding new
fingerprint_invalid =
    new "COMPANION_CERT_FINGERPRINT_INVALID"
      "Companion certificate fingerprint must be a SHA-256 hex string." "companion.trust" false

unfoldable pub validate_device_id : String → Result (Unit {0})
validate_device_id device_id = if is_blank device_id then err device_id_missing else ok tt

abbrev pub is_separator : ℕ → Bool
is_separator c = c ==ℕ b':' || is_ascii_whitespace c

-- `unicode_lower` is the standard library's table of lower-case forms for the characters that are
-- not ASCII; one character may have a form of several.
module _ (unicode_lower : ℕ → Text) where
  unfoldable pub to_lowercase : ℕ → Text
  to_lowercase c =
      if between b'A' b'Z' c then (c + 32) ∷ [] else if ltb c 0x80 then c ∷ [] else unicode_lower c

  unfoldable pub normalize_fingerprint : Text → Text
  unfolding to_lowercase is_ascii_whitespace
  normalize_fingerprint [] = []
  normalize_fingerprint (c ∷ s) =
      let rest = normalize_fingerprint s in if is_separator c then rest else to_lowercase c ++ rest

  unfoldable pub validate_fingerprint : Text → Result (Unit {0})
  unfolding normalize_fingerprint is_ascii_hexdigit
  validate_fingerprint fingerprint =
      let normalized = normalize_fingerprint fingerprint in
      if not (text_len normalized ==ℕ 64) || not (all is_ascii_hexdigit normalized)
      then err fingerprint_invalid
      else ok tt
