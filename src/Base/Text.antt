-- ===== src/Base/Text.antt =====
-- Texts that the program walks, as lists of Unicode scalar values, and the tests of Rust's `char`.
-- A text that is only compared or joined stays a native `String`.
use Prim.Native.Nat.{ℕ, zero, suc, ◌+◌, ◌/◌, ◌%◌}
use Prim.Native.Char.{code}
use Prim.Native.String.{String, slice, ◌++◌ as ◌<>◌}
use Prim.Native.String.append
use mathlib.Core.Path.{◌≡◌, refl, ap, ap₂, ◌∙◌}
use mathlib.Core.Bool.{Bool, true, false, ◌&&◌, ◌||◌}
use mathlib.Core.List.{List, [], ◌∷◌, ◌++◌}
use mathlib.Core.Logic.{inl, inr}
use text.Mathlib.Text.{◌==◌}
use text.Mathlib.TextEquality.{eq_iff}
use native.Mathlib.Omega.{arith}
use webadbcontrol.Base.Tests.{Bool-cases, leb, ltb, ◌==ℕ◌, if◌then◌else◌}
use webadbcontrol.Base.Lists.{all, any}

pub String-discrete : Discrete String
String-discrete s t = elim (Bool-cases (s == t)) [
  | inl e ↦ yes ((eq_iff s t).0 e)
  | inr e ↦ no (λ p. cc ((eq_iff s t).1 p))
]

abbrev pub Text : Type 0
Text = List ℕ

abbrev pub codes : String → Text
codes String.[] = []
codes (String.◌∷◌ c s) = code c ∷ codes s

pub codes-append : (s t : String) → codes (s <> t) ≡ codes s ++ codes t
codes-append String.[] t = ap codes (append.nil t)
codes-append (String.◌∷◌ c s) t =
    ap codes (append.cons c s t) ∙ ap (λ r. code c ∷ r) (codes-append s t)

-- `==` of two texts.
unfoldable pub text_eq : Text → Text → Bool
text_eq [] [] = true
text_eq (c ∷ s) (d ∷ t) = c ==ℕ d && text_eq s t
text_eq _ _ = false

pub text_eq_refl : (s : Text) → text_eq s s ≡ true
unfolding text_eq
text_eq_refl [] = refl
text_eq_refl (c ∷ s) = ground (arith, text_eq_refl s)

pub text_eq-eq : (s t : Text) → text_eq s t ≡ true → s ≡ t
unfolding text_eq
text_eq-eq [] [] h = refl
text_eq-eq [] (d ∷ t) h = cc
text_eq-eq (c ∷ s) [] h = cc
text_eq-eq (c ∷ s) (d ∷ t) h = ap₂ ◌∷◌ (ground arith) (text_eq-eq s t (ground arith))

-- `str::len` counts the bytes of the UTF-8.
abbrev pub len_utf8 : ℕ → ℕ
len_utf8 c = if ltb c 0x80 then 1 else if ltb c 0x800 then 2 else if ltb c 0x1_0000 then 3 else 4

abbrev pub text_len : Text → ℕ
text_len [] = 0
text_len (c ∷ s) = len_utf8 c + text_len s

abbrev pub between : ℕ → ℕ → ℕ → Bool
between lo hi c = leb lo c && leb c hi

-- `char::is_whitespace`, the Unicode property White_Space.
abbrev pub is_whitespace : ℕ → Bool
is_whitespace c =
    between 9 13 c
    || c ==ℕ 0x20
    || c ==ℕ 0x85
    || c ==ℕ 0xa0
    || c ==ℕ 0x1680
    || between 0x2000 0x200a c
    || between 0x2028 0x2029 c
    || c ==ℕ 0x202f
    || c ==ℕ 0x205f
    || c ==ℕ 0x3000

-- `char::is_ascii_whitespace`: it leaves out the vertical tab.
unfoldable pub is_ascii_whitespace : ℕ → Bool
is_ascii_whitespace c = c ==ℕ 9 || c ==ℕ 10 || c ==ℕ 12 || c ==ℕ 13 || c ==ℕ 32

abbrev pub is_ascii_digit : ℕ → Bool
is_ascii_digit = between b'0' b'9'

unfoldable pub is_ascii_hexdigit : ℕ → Bool
is_ascii_hexdigit c = is_ascii_digit c || between b'a' b'f' c || between b'A' b'F' c

unfoldable pub is_ascii_alphanumeric : ℕ → Bool
is_ascii_alphanumeric c = is_ascii_digit c || between b'a' b'z' c || between b'A' b'Z' c

-- `s.trim().is_empty()`.
unfoldable pub is_blank : String → Bool
is_blank s = all is_whitespace (codes s)

-- `format!("{n:0kx}")` of an `n` below 16 ^ k, and `format!("{n:0k}")` of one below 10 ^ k.
unfoldable pub hex_padded : ℕ → ℕ → String
hex_padded zero n = ""
hex_padded (suc k) n = hex_padded k (n / 16) <> slice "0123456789abcdef" (n % 16) (n % 16 + 1)

unfoldable pub dec_padded : ℕ → ℕ → String
dec_padded zero n = ""
dec_padded (suc k) n = dec_padded k (n / 10) <> slice "0123456789" (n % 10) (n % 10 + 1)

-- `Display` of an unsigned integer. Twenty digits are enough for a `u64`.
unfoldable pub show_digits : ℕ → ℕ → String
show_digits zero n = ""
show_digits (suc k) n =
    let rest = show_digits k (n / 10) in
    let digit = slice "0123456789" (n % 10) (n % 10 + 1) in
    if ltb n 10 then digit else rest <> digit

unfoldable pub show_ℕ : ℕ → String
unfolding show_digits
show_ℕ = show_digits 20

-- `contains` of a vector of texts.
abbrev pub contains : String → List String → Bool
contains s ts = any (λ t. t == s) ts
