-- ===== src/Adb/Scrcpy/Shell.antt =====
-- The device's shell reads the remote arguments as plain words.
use Prim.Native.Nat.{zero, suc}
use Prim.Native.String.{String, slice}
use webadbcontrol.Base.{
  ℕ, ◌+◌, ◌/◌, ◌%◌, ◌<◌, ◌≡◌, refl, ◌<>◌, Bool, true, false, not, ◌&&◌, ◌||◌, List, [], ◌∷◌, ◌++◌,
  all, ltb, ◌==ℕ◌, if◌then◌else◌, arith, inl, inr, Bool-cases, All,
}
use webadbcontrol.Base.Text.{
  text_len, codes-append, Text, codes, is_blank, is_ascii_alphanumeric, hex_padded, show_ℕ,
  show_digits,
}
use webadbcontrol.Error.{ok, err, Result-cases}
use webadbcontrol.Adb.Command.{validate_adb_args}
use webadbcontrol.Adb.Scrcpy.{
  starts_with, ends_with, valid_session, out_of_range, config_invalid, ScrcpyServerConfig,
  is_path_char, valid_apk_path, validate_scrcpy_config, remote_args, build_scrcpy_server_args,
}

-- A character that no POSIX shell treats specially in the middle of a word.
abbrev pub is_plain : ℕ → Bool
is_plain c = is_path_char c || c ==ℕ b','

abbrev pub IsPlain : String → Type 0
IsPlain s = all is_plain (codes s) ≡ true

all-append : (p : ℕ → Bool) (s t : Text) → all p s ≡ true → all p t ≡ true → all p (s ++ t) ≡ true
all-append p [] t hs ht = ht
all-append p (c ∷ s) t hs ht = ground (arith, all-append p s t)

append-IsPlain : (s t : String) → IsPlain s → IsPlain t → IsPlain (s <> t)
append-IsPlain s t hs ht = rw (codes-append s t) (all-append is_plain (codes s) (codes t) hs ht)

digit-IsPlain : (d : ℕ) → d < 10 → IsPlain (slice "0123456789" d (d + 1))
unfolding is_ascii_alphanumeric
digit-IsPlain zero h = refl
digit-IsPlain (suc zero) h = refl
digit-IsPlain (suc (suc zero)) h = refl
digit-IsPlain (suc (suc (suc zero))) h = refl
digit-IsPlain (suc (suc (suc (suc zero)))) h = refl
digit-IsPlain (suc (suc (suc (suc (suc zero))))) h = refl
digit-IsPlain (suc (suc (suc (suc (suc (suc zero)))))) h = refl
digit-IsPlain (suc (suc (suc (suc (suc (suc (suc zero))))))) h = refl
digit-IsPlain (suc (suc (suc (suc (suc (suc (suc (suc zero)))))))) h = refl
digit-IsPlain (suc (suc (suc (suc (suc (suc (suc (suc (suc zero))))))))) h = refl
digit-IsPlain (suc (suc (suc (suc (suc (suc (suc (suc (suc (suc d)))))))))) h =
    absurd (omega (arith, h))

hex_digit-IsPlain : (d : ℕ) → d < 16 → IsPlain (slice "0123456789abcdef" d (d + 1))
unfolding is_ascii_alphanumeric
hex_digit-IsPlain zero h = refl
hex_digit-IsPlain (suc zero) h = refl
hex_digit-IsPlain (suc (suc zero)) h = refl
hex_digit-IsPlain (suc (suc (suc zero))) h = refl
hex_digit-IsPlain (suc (suc (suc (suc zero)))) h = refl
hex_digit-IsPlain (suc (suc (suc (suc (suc zero))))) h = refl
hex_digit-IsPlain (suc (suc (suc (suc (suc (suc zero)))))) h = refl
hex_digit-IsPlain (suc (suc (suc (suc (suc (suc (suc zero))))))) h = refl
hex_digit-IsPlain (suc (suc (suc (suc (suc (suc (suc (suc zero)))))))) h = refl
hex_digit-IsPlain (suc (suc (suc (suc (suc (suc (suc (suc (suc zero))))))))) h = refl
hex_digit-IsPlain (suc (suc (suc (suc (suc (suc (suc (suc (suc (suc zero)))))))))) h = refl
hex_digit-IsPlain (suc (suc (suc (suc (suc (suc (suc (suc (suc (suc (suc zero))))))))))) h = refl
hex_digit-IsPlain (suc (suc (suc (suc (suc (suc (suc (suc (suc (suc (suc (suc zero)))))))))))) h =
    refl
hex_digit-IsPlain (suc (suc (suc (suc (suc (suc (suc (suc (suc (suc (suc (suc (suc zero)))))))))))))
      h =
    refl
hex_digit-IsPlain
      (suc (suc (suc (suc (suc (suc (suc (suc (suc (suc (suc (suc (suc (suc zero)))))))))))))) h =
    refl
hex_digit-IsPlain
      (suc (suc (suc (suc (suc (suc (suc (suc (suc (suc (suc (suc (suc (suc (suc zero)))))))))))))))
      h =
    refl
hex_digit-IsPlain
      (suc
        (suc (suc (suc (suc (suc (suc (suc (suc (suc (suc (suc (suc (suc (suc (suc d))))))))))))))))
      h =
    absurd (omega (arith, h))

show_digits-IsPlain : (k n : ℕ) → IsPlain (show_digits k n)
unfolding show_digits
show_digits-IsPlain zero n = refl
show_digits-IsPlain (suc k) n =
    let digit = digit-IsPlain (n % 10) (omega arith) in
    elim (Bool-cases (ltb n 10)) [
      | inl small ↦ rw small digit
      | inr large ↦
          rw large
            (append-IsPlain (show_digits k (n / 10)) _ (show_digits-IsPlain k (n / 10)) digit)
    ]

hex_padded-IsPlain : (k n : ℕ) → IsPlain (hex_padded k n)
unfolding hex_padded
hex_padded-IsPlain zero n = refl
hex_padded-IsPlain (suc k) n =
    append-IsPlain (hex_padded k (n / 16)) _ (hex_padded-IsPlain k (n / 16))
      (hex_digit-IsPlain (n % 16) (omega arith))

all_weaken : (s : Text) → all is_path_char s ≡ true → all is_plain s ≡ true
unfolding is_ascii_alphanumeric
all_weaken [] h = refl
all_weaken (c ∷ s) h = ground (arith, all_weaken s)

fourth :
    (a b c d e : Bool)
    → (if not a || b || c || not d || e then err config_invalid else ok (tt {0})) ≡ ok tt
    → d ≡ true
fourth a b c d e h = ground arith

valid_path :
    (config : ScrcpyServerConfig)
    → validate_scrcpy_config config ≡ ok tt
    → valid_apk_path config.apk_path ≡ true
unfolding validate_scrcpy_config
valid_path config h =
    fourth (valid_session config.session_id) (is_blank config.device_id)
      (ltb 512 (text_len (codes config.device_id))) (valid_apk_path config.apk_path)
      (out_of_range config) h

last_of : (a b c : Bool) → (a && b && c) ≡ true → c ≡ true
last_of true true c h = h
last_of true false c h = cc
last_of false b c h = cc

path-IsPlain :
    (config : ScrcpyServerConfig) → validate_scrcpy_config config ≡ ok tt → IsPlain config.apk_path
path-IsPlain config h = all_weaken (codes config.apk_path) (
    last_of (starts_with (codes "/data/app/") (codes config.apk_path))
      (ends_with (codes ".apk") (codes config.apk_path)) _ (valid_path config h))

show_ℕ-IsPlain : (n : ℕ) → IsPlain (show_ℕ n)
unfolding show_ℕ
show_ℕ-IsPlain n = show_digits-IsPlain 20 n

remote_args-IsPlain :
    (config : ScrcpyServerConfig)
    → validate_scrcpy_config config ≡ ok tt
    → All IsPlain (remote_args config)
unfolding is_ascii_alphanumeric
remote_args-IsPlain config valid = (
  append-IsPlain "CLASSPATH=" config.apk_path refl (path-IsPlain config valid),
  (
    refl,
    (
      refl,
      (
        refl,
        (
          refl,
          (
            append-IsPlain "scid=" (hex_padded 8 config.scid) refl
                (hex_padded-IsPlain 8 config.scid),
            (
              refl,
              (
                refl,
                (
                  refl,
                  (
                    refl,
                    (
                      refl,
                      (
                        refl,
                        (
                          refl,
                          (
                            append-IsPlain "max_size=" (show_ℕ config.max_size) refl
                                (show_ℕ-IsPlain config.max_size),
                            (
                              append-IsPlain "video_bit_rate=" (show_ℕ config.video_bit_rate) refl
                                  (show_ℕ-IsPlain config.video_bit_rate),
                              (
                                append-IsPlain "max_fps=" (show_ℕ config.max_fps) refl
                                    (show_ℕ-IsPlain config.max_fps),
                                (refl, (refl, (refl, (refl, (refl, tt))))),
                              ),
                            ),
                          ),
                        ),
                      ),
                    ),
                  ),
                ),
              ),
            ),
          ),
        ),
      ),
    ),
  ),
)

-- The command that is built for an accepted configuration runs adb on the configured device, and
-- every word that the device's shell reads is made of plain characters: no configuration can add a
-- command, a redirection or a substitution.
pub build_scrcpy_server_args-IsPlain :
    (config : ScrcpyServerConfig) (args : List String)
    → build_scrcpy_server_args config ≡ ok args
    → (args ≡ "-s" ∷ config.device_id ∷ "shell" ∷ remote_args config)
      × All IsPlain (remote_args config)
      × (validate_adb_args args ≡ ok tt)
unfolding build_scrcpy_server_args
build_scrcpy_server_args-IsPlain config args h =
    let built = "-s" ∷ config.device_id ∷ "shell" ∷ remote_args config in
    elim (Result-cases (validate_scrcpy_config config)) [
      | inr (e, bad) ↦ absurd (ground arith)
      | inl (_, valid) ↦ elim (Result-cases (validate_adb_args built)) [
        | inr (e, bad) ↦ absurd (ground arith)
        | inl (_, no_nul) ↦
            let is : args ≡ built = ground arith in
            (is, remote_args-IsPlain config valid, rw is no_nul)
      ]
    ]
