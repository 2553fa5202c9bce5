-- ===== src/Trust/Validity.antt =====
-- What the validations of a pairing request establish, and that the normal form passes them again.
use webadbcontrol.Base.{ℕ, ◌+◌, ◌≡◌, refl, true, false, [], ◌∷◌, ◌++◌, arith, all}
use webadbcontrol.Base.Text.{Text, text_len, is_ascii_hexdigit, is_ascii_whitespace}
use webadbcontrol.Error.{ok}
use webadbcontrol.Trust.Fingerprint.{
  to_lowercase, normalize_fingerprint, validate_fingerprint, is_separator,
}

hex_char :
    (unicode_lower : ℕ → Text) (c : ℕ) (s : Text)
    → is_ascii_hexdigit c ≡ true
    → (is_separator c ≡ false)
      × (text_len (to_lowercase unicode_lower c ++ s) ≡ 1 + text_len s)
      × (text_len (c ∷ s) ≡ 1 + text_len s)
      × (all is_ascii_hexdigit (to_lowercase unicode_lower c ++ s) ≡ all is_ascii_hexdigit s)
unfolding is_ascii_hexdigit to_lowercase is_ascii_whitespace
hex_char unicode_lower c s h = (ground arith, ground arith, ground arith, ground arith)

-- A text of hexadecimal digits keeps its length, and keeps to such digits.
normalize_hex :
    (unicode_lower : ℕ → Text) (s : Text)
    → all is_ascii_hexdigit s ≡ true
    → (text_len (normalize_fingerprint unicode_lower s) ≡ text_len s)
      × (all is_ascii_hexdigit (normalize_fingerprint unicode_lower s) ≡ true)
unfolding normalize_fingerprint
normalize_hex unicode_lower [] h = (refl, refl)
normalize_hex unicode_lower (c ∷ s) h = ground (
  arith,
  hex_char unicode_lower c s,
  hex_char unicode_lower c (normalize_fingerprint unicode_lower s),
  normalize_hex unicode_lower s,
)

valid_parts :
    (unicode_lower : ℕ → Text) (f : Text)
    → validate_fingerprint unicode_lower f ≡ ok tt
    → (text_len (normalize_fingerprint unicode_lower f) ≡ 64)
      × (all is_ascii_hexdigit (normalize_fingerprint unicode_lower f) ≡ true)
unfolding validate_fingerprint
valid_parts unicode_lower f h = ground arith

-- The normal form of a valid fingerprint is valid.
pub validate-normalize :
    (unicode_lower : ℕ → Text) (f : Text)
    → validate_fingerprint unicode_lower f ≡ ok tt
    → validate_fingerprint unicode_lower (normalize_fingerprint unicode_lower f) ≡ ok tt
unfolding validate_fingerprint
validate-normalize unicode_lower f h = ground (
  arith,
  valid_parts unicode_lower f,
  normalize_hex unicode_lower (normalize_fingerprint unicode_lower f),
)
