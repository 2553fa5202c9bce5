-- ===== src/Adb/Wireless/Lines.antt =====
-- wireless.rs: `find_pairing_endpoint`, and the methods of `str` that the file uses.
use webadbcontrol.Base.{
  ℕ, ◌+◌, Bool, true, false, ◌&&◌, Option, none, some, List, [], ◌∷◌, ◌==ℕ◌, if◌then◌else◌,
}
use webadbcontrol.Base.Text.{Text, codes, text_eq, between, is_whitespace}

-- A character joins the line that follows it.
abbrev join : ℕ → List Text → List Text
join c [] = (c ∷ []) ∷ []
join c (line ∷ more) = (c ∷ line) ∷ more

-- `str::lines`. The carriage return that it takes off the end of a line is white space, which the
-- only caller splits at.
abbrev pub lines : Text → List Text
lines [] = []
lines (c ∷ s) = let rest = lines s in if c ==ℕ 10 then [] ∷ rest else join c rest

abbrev word_before : Text → List Text → List Text
word_before [] words = words
word_before (c ∷ word) words = (c ∷ word) ∷ words

-- The characters up to the first white space, and the words after it.
abbrev split_words : Text → Text × List Text
split_words [] = ([], [])
split_words (c ∷ s) =
    let (word, words) = split_words s in
    if is_whitespace c then ([], word_before word words) else (c ∷ word, words)

-- `split_whitespace`
abbrev pub split_whitespace : Text → List Text
split_whitespace s = let (word, words) = split_words s in word_before word words

abbrev pub trim_start : Text → Text
trim_start [] = []
trim_start (c ∷ s) = let rest = trim_start s in if is_whitespace c then rest else c ∷ s

abbrev pub to_ascii_lowercase : Text → Text
to_ascii_lowercase [] = []
to_ascii_lowercase (c ∷ s) =
    let rest = to_ascii_lowercase s in (if between b'A' b'Z' c then c + 32 else c) ∷ rest

abbrev pub starts_with : Text → Text → Bool
starts_with [] s = true
starts_with (c ∷ prefix) [] = false
starts_with (c ∷ prefix) (d ∷ s) = c ==ℕ d && starts_with prefix s

abbrev pub pairing_service : Text
pairing_service = codes "_adb-tls-pairing._tcp"

-- The closure of `find_map`, on the fields of a line.
abbrev pub endpoint_of : Text → List Text → Option Text
endpoint_of service_name (name ∷ service_type ∷ endpoint ∷ more) =
    if text_eq name service_name && text_eq service_type pairing_service
    then some endpoint
    else none
endpoint_of service_name _ = none

abbrev pub first_some : Option Text → Option Text → Option Text
first_some none other = other
first_some (some t) other = some t

unfoldable pub find_endpoint : Text → List Text → Option Text
unfolding text_eq
find_endpoint service_name [] = none
find_endpoint service_name (line ∷ more) =
    let rest = find_endpoint service_name more in
    first_some (endpoint_of service_name (split_whitespace line)) rest

unfoldable pub find_pairing_endpoint : Text → Text → Option Text
unfolding find_endpoint
find_pairing_endpoint output service_name = find_endpoint service_name (lines output)
