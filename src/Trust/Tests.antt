-- ===== src/Trust/Tests.antt =====
-- The trust store on concrete inputs: the cases of the tests in companion/trust.rs, and the
-- theorems at inputs that meet their hypotheses.
use native.Mathlib.Decide.{ℕ_discrete}
use webadbcontrol.Base.{
  if◌then◌else◌, ℕ, ◌≤◌, ◌≡◌, refl, String, ◌==◌, true, false, none, List, [], ◌∷◌, arith, eq_refl,
  inl, inr, ◌⊎◌,
}
use webadbcontrol.Base.Text.{Text, codes, text_eq, is_blank, String-discrete}
use webadbcontrol.Base.Map.{lookup, insert, remove, values}
use webadbcontrol.Error.{ok}
use webadbcontrol.Trust.Fingerprint.{
  validate_device_id, validate_fingerprint, normalize_fingerprint,
}
use webadbcontrol.Trust.{
  PairingRequest, PairingChallenge, TrustedDevice, TrustStore, Draw, empty_store, begin_pairing,
  is_trusted, confirm_pairing, revoke_device, trust_from,
}
use webadbcontrol.Trust.Log.{Call, begins, confirms, revokes, step, run}
use webadbcontrol.Trust.Safety.{Origin, is_trusted-confirmed}
use webadbcontrol.Trust.Attempts.{guesses, guesses_count, guesses_exhaust}
use webadbcontrol.Trust.Invariant.{IsValid, run-IsValid}
use webadbcontrol.Trust.Pairing.{confirm-begin, is_trusted-revoke}
use webadbcontrol.Trust.Store.{
  TrustStoreFile, content, SaveDisk, Codec, load_trusted_devices_from_file,
  save_trusted_devices_to_file,
}
use webadbcontrol.Trust.Store.Recovery.{is_trusted-load}

all_shut : Unit {0}
unfolding run step begin_pairing confirm_pairing revoke_device is_trusted validate_device_id
    validate_fingerprint lookup insert remove values text_eq guesses is_blank
all_shut = tt

-- No character outside ASCII has another lower-case form.
abbrev ascii_table : ℕ → Text
ascii_table c = c ∷ []

abbrev fingerprint : Text
fingerprint = codes "0123456789abcdef0123456789abcdef0123456789abcdef0123456789abcdef"

abbrev spelled : Text
spelled = codes "01:23:45:67:89:AB:CD:EF 0123456789abcdef0123456789ABCDEF0123456789abcdef"

abbrev phone : PairingRequest
phone = record {
  device_id = "device-1";
  device_name = "Pixel Test";
  certificate_fingerprint_sha256 = fingerprint;
}

abbrev draw : Draw
draw = record { id_bits = 0xab; code_number = 4217 }

abbrev paired : List Call
paired = confirms "pair-00000000000000ab" "004217" 2000 ∷ begins phone draw 1000 ∷ []

abbrev challenge : PairingChallenge
challenge = record {
  pairing_id = "pair-00000000000000ab";
  device_id = "device-1";
  device_name = "Pixel Test";
  certificate_fingerprint_sha256 = fingerprint;
  short_code = "004217";
  created_at_unix_ms = 1000;
  expires_at_unix_ms = 301000;
  attempts_remaining = 5;
}

begin_pairing_test : (begin_pairing ascii_table phone draw 1000 empty_store).0 ≡ ok challenge
unfolding all_shut
begin_pairing_test = refl

trusted_test :
    (is_trusted ascii_table "device-1" spelled 3000 (run ascii_table paired) ≡ true)
    × (is_trusted ascii_table "device-1" spelled 3000
          (run ascii_table (revokes "device-1" 2500 ∷ paired))
        ≡ false)
    × (is_trusted ascii_table "device-2" spelled 3000 (run ascii_table paired) ≡ false)
unfolding all_shut
trusted_test = (refl, refl, refl)

is_trusted-confirmed_example :
    (v : TrustedDevice) × Origin ascii_table paired "device-1" v
    × (3000 ≤ v.expires_at_unix_ms)
    × (v.certificate_fingerprint_sha256 ≡ normalize_fingerprint ascii_table spelled)
is_trusted-confirmed_example =
    is_trusted-confirmed ascii_table paired "device-1" spelled 3000 trusted_test.0

abbrev begun : TrustStore
begun = run ascii_table (begins phone draw 1000 ∷ [])

abbrev wrong : List (String × ℕ)
wrong = ("000000", 1001) ∷ ("000001", 1002) ∷ ("000002", 1003) ∷ []

guesses_count_test :
    (guesses "pair-00000000000000ab" wrong begun).trusted_devices ≡ begun.trusted_devices
unfolding all_shut
guesses_count_test =
    (guesses_count "pair-00000000000000ab" wrong begun challenge refl (omega arith)
      (refl, (refl, (refl, tt))) (omega arith)).1

abbrev many_wrong : List (String × ℕ)
many_wrong = ("1", 1001) ∷ ("2", 1002) ∷ ("3", 1003) ∷ ("4", 1004) ∷ ("5", 900000) ∷ []

guesses_exhaust_example :
    (lookup "pair-00000000000000ab"
        (guesses "pair-00000000000000ab" many_wrong begun).pending_pairings
      ≡ none)
    × ((guesses "pair-00000000000000ab" many_wrong begun).trusted_devices ≡ begun.trusted_devices)
unfolding all_shut
guesses_exhaust_example =
    guesses_exhaust "pair-00000000000000ab" many_wrong begun challenge refl (omega arith)
      (refl, (refl, (refl, (refl, (refl, tt))))) (omega arith)

run-IsValid_example : IsValid ascii_table (run ascii_table paired)
run-IsValid_example = run-IsValid ascii_table paired

confirm-begin_test :
    (confirm_pairing "pair-00000000000000ab" "004217" 2000
      (begin_pairing ascii_table phone draw 1000 empty_store).1).0
    ≡ ok (trust_from challenge 2000)
confirm-begin_test =
    (confirm-begin ascii_table phone draw 1000 2000 empty_store challenge begin_pairing_test
      (omega arith)).0

is_trusted-revoke_test :
    is_trusted ascii_table "device-1" fingerprint 3000
      (revoke_device "device-1" 2500 (run ascii_table paired)).1
    ≡ false
is_trusted-revoke_test =
    (is_trusted-revoke ascii_table "device-1" 2500 (run ascii_table paired)).1 "device-1"
      fingerprint 3000

-- A codec that knows one file.
abbrev one_device : TrustStoreFile
one_device = record { schema_version = 1; trusted_devices = trust_from challenge 2000 ∷ [] }

TrustStoreFile-discrete : Discrete TrustStoreFile
TrustStoreFile-discrete = hlevel (ℕ_discrete, String-discrete)

encode : TrustStoreFile → String ⊎ String
encode file = elim (TrustStoreFile-discrete file one_device) [
  | yes _ ↦ inr "file"
  | no _ ↦ inl "unknown"
]

abbrev codec : Codec
codec = record {
  from_str = λ text. if text == "file" then inr one_device else inl "unknown";
  to_string_pretty = encode;
}

decodes :
    (file : TrustStoreFile) (t : String)
    → codec.to_string_pretty file ≡ inr t
    → codec.from_str t ≡ inr file
unfolding encode
decodes file t h = elim (TrustStoreFile-discrete file one_device) [
  | yes p ↦ ground (arith, eq_refl t)
  | no q ↦ ground arith
]

abbrev disk : SaveDisk
disk = record { has_parent = true; create_dir = none; write = none }

encode_test : encode one_device ≡ inr "file"
unfolding encode
encode_test = elim (TrustStoreFile-discrete one_device one_device) [
  | yes p ↦ ground arith
  | no q ↦ absurd (q refl)
]

save_test : save_trusted_devices_to_file codec disk (run ascii_table paired) ≡ ok "file"
unfolding all_shut save_trusted_devices_to_file
save_test = rw encode_test

is_trusted-load_example :
    (loaded : TrustStore) × (load_trusted_devices_from_file ascii_table codec (content "file")
      ≡ ok loaded)
    × ((id : String) (f : Text) (now : ℕ)
        → is_trusted ascii_table id f now loaded
          ≡ is_trusted ascii_table id f now (run ascii_table paired))
is_trusted-load_example = is_trusted-load ascii_table codec disk paired "file" decodes save_test
