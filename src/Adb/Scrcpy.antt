-- ===== src/Adb/Scrcpy.antt =====
-- adb.rs: the scrcpy configuration, its check, and the arguments of the command that starts the
-- server on the device.
pub mod Shell
use webadbcontrol.Base.{
  ℕ, ◌%◌, ◌^◌, String, ◌<>◌, Bool, true, false, not, ◌&&◌, ◌||◌, List, [], ◌∷◌, ◌++◌, all, ltb, leb,
  ◌==ℕ◌, if◌then◌else◌,
}
use webadbcontrol.Base.Text.{
  Text, codes, text_len, text_eq, between, is_ascii_alphanumeric, is_blank, hex_padded, show_ℕ,
}
use webadbcontrol.Error.{AppError, new, Result, ok, err, ◌>>=◌, ◌>>◌, fail_if}
use webadbcontrol.Adb.Command.{validate_adb_args}

-- `scid`, `video_bit_rate` are `u32`, `max_size` is `u16` and `max_fps` is `u8`.
pub record ScrcpyServerConfig : Type 0 where
  pub session_id : String
  pub device_id : String
  pub apk_path : String
  pub scid : ℕ
  pub max_size : ℕ
  pub video_bit_rate : ℕ
  pub max_fps : ℕ

abbrev starts_with : Text → Text → Bool
starts_with [] s = true
starts_with (c ∷ prefix) [] = false
starts_with (c ∷ prefix) (d ∷ s) = c ==ℕ d && starts_with prefix s

abbrev ends_with : Text → Text → Bool
ends_with suffix [] = text_eq suffix []
ends_with suffix (d ∷ s) = text_eq suffix (d ∷ s) || ends_with suffix s

abbrev pub is_session_char : ℕ → Bool
is_session_char c = is_ascii_alphanumeric c || c ==ℕ b'-'

abbrev pub is_path_char : ℕ → Bool
is_path_char c =
    is_ascii_alphanumeric c
    || c ==ℕ b'/'
    || c ==ℕ b'.'
    || c ==ℕ b'_'
    || c ==ℕ b'-'
    || c ==ℕ b'+'
    || c ==ℕ b'='
    || c ==ℕ b'~'

abbrev pub valid_session : String → Bool
valid_session id =
    not (text_len (codes id) ==ℕ 0)
    && leb (text_len (codes id)) 64
    && all is_session_char (codes id)

abbrev pub valid_apk_path : String → Bool
valid_apk_path path =
    starts_with (codes "/data/app/") (codes path)
    && ends_with (codes ".apk") (codes path)
    && all is_path_char (codes path)

unfoldable pub config_invalid : AppError
unfolding new
config_invalid =
    new "SCRCPY_CONFIG_INVALID" "The scrcpy server configuration is invalid." "adb.scrcpy" false

-- The condition of the check, apart from the tests of the ids and the path.
abbrev out_of_range : ScrcpyServerConfig → Bool
out_of_range config =
    not (between 0x1000_0000 0x7fff_ffff config.scid)
    || not (between 128 4096 config.max_size)
    || not (between 500_000 32_000_000 config.video_bit_rate)
    || not (between 1 60 config.max_fps)

unfoldable pub validate_scrcpy_config : ScrcpyServerConfig → Result (Unit {0})
unfolding text_eq is_ascii_alphanumeric is_blank
validate_scrcpy_config config =
    if not (valid_session config.session_id)
      || is_blank config.device_id
      || ltb 512 (text_len (codes config.device_id))
      || not (valid_apk_path config.apk_path)
      || out_of_range config
    then err config_invalid
    else ok tt

-- The arguments after `shell`, which the device's shell reads.
abbrev pub remote_args : ScrcpyServerConfig → List String
remote_args config =
    ("CLASSPATH=" <> config.apk_path)
    ∷ "app_process"
    ∷ "/"
    ∷ "com.genymobile.scrcpy.Server"
    ∷ "4.0"
    ∷ ("scid=" <> hex_padded 8 config.scid)
    ∷ "log_level=info"
    ∷ "audio=true"
    ∷ "audio_codec=raw"
    ∷ "video=true"
    ∷ "control=true"
    ∷ "video_codec=h264"
    ∷ "video_codec_options=profile=1,level=2048"
    ∷ ("max_size=" <> show_ℕ config.max_size)
    ∷ ("video_bit_rate=" <> show_ℕ config.video_bit_rate)
    ∷ ("max_fps=" <> show_ℕ config.max_fps)
    ∷ "tunnel_forward=true"
    ∷ "send_device_meta=false"
    ∷ "send_dummy_byte=true"
    ∷ "send_stream_meta=true"
    ∷ "send_frame_meta=true"
    ∷ []

unfoldable pub build_scrcpy_server_args : ScrcpyServerConfig → Result (List String)
build_scrcpy_server_args config = do
  validate_scrcpy_config config
  let args = "-s" ∷ config.device_id ∷ "shell" ∷ remote_args config
  validate_adb_args args
  ok args
