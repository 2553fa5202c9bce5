-- ===== src/Companion/Capability.antt =====
-- capability.rs: the capabilities a companion may have. The catalog is Core's, not the device's.
use webadbcontrol.Base.{
  String, ◌==◌, Bool, true, false, List, [], ◌∷◌, Option, none, some, if◌then◌else◌,
}

pub data CapabilityProvider : Type 0 where
  adb android_companion : CapabilityProvider

pub data CapabilityTransport : Type 0 where
  ipc quic_control quic_data_stream quic_media_stream quic_datagram : CapabilityTransport

pub data CapabilitySensitivity : Type 0 where
  low medium high critical : CapabilitySensitivity

pub record CapabilityPermissionRequirement : Type 0 where
  pub android_permissions : List String
  pub special_permissions : List String
  pub requires_user_consent : Bool
  pub audit_required : Bool

pub record Capability : Type 0 where
  pub id : String
  pub title : String
  pub description : String
  pub provider : CapabilityProvider
  pub transport : CapabilityTransport
  pub sensitivity : CapabilitySensitivity
  pub permission : CapabilityPermissionRequirement
  pub operations : List String

pub record CapabilityPermissionState : Type 0 where
  pub capability_id : String
  pub granted : Bool
  pub android_permissions : List String
  pub missing_permissions : List String
  pub special_grants : List String
  pub missing_special_grants : List String
  pub user_consent_required : Bool

abbrev is_audited : CapabilitySensitivity → Bool
is_audited low = false
is_audited medium = false
is_audited high = true
is_audited critical = true

abbrev capability :
    String
    → String
    → String
    → CapabilityTransport
    → CapabilitySensitivity
    → List String
    → List String
    → List String
    → Bool
    → Capability
capability id title description transport sensitivity operations android special consent = record {
  id = id;
  title = title;
  description = description;
  provider = android_companion;
  transport = transport;
  sensitivity = sensitivity;
  permission = record {
    android_permissions = android;
    special_permissions = special;
    requires_user_consent = consent;
    audit_required = is_audited sensitivity;
  };
  operations = operations;
}

unfoldable pub android_companion_capability_catalog : List Capability
android_companion_capability_catalog =
    capability "android.input.ime" "Input method and text injection"
      "Provide controlled text input through the Android companion input channel." quic_control high
      ("input.text" ∷ "input.key" ∷ []) [] ("input-method-service" ∷ []) true
    ∷ capability "android.file.read" "File read"
        "Read files that the Android companion is allowed to access." quic_data_stream high
        ("file.read" ∷ [])
        ("android.permission.READ_MEDIA_IMAGES" ∷ "android.permission.READ_MEDIA_VIDEO" ∷ [])
        ("scoped-storage-or-document-picker" ∷ []) true
    ∷ capability "android.file.write" "File write"
        "Write files through scoped storage or user-granted document targets." quic_data_stream high
        ("file.write" ∷ []) [] ("scoped-storage-or-document-picker" ∷ []) true
    ∷ capability "android.camera.stream" "Camera stream"
        "Open camera preview stream after permission and foreground visibility checks."
        quic_media_stream critical ("camera.open" ∷ "camera.close" ∷ [])
        ("android.permission.CAMERA" ∷ []) [] true
    ∷ capability "android.audio.record" "Audio recording"
        "Record microphone audio and stream it to Core after explicit authorization."
        quic_media_stream critical ("audio.record.start" ∷ "audio.record.stop" ∷ [])
        ("android.permission.RECORD_AUDIO" ∷ []) [] true
    ∷ capability "android.sms.read" "SMS read"
        "Read SMS only when platform policy and user authorization allow it." quic_control critical
        ("sms.read" ∷ []) ("android.permission.READ_SMS" ∷ []) [] true
    ∷ capability "android.sms.send" "SMS send"
        "Send SMS only after explicit user and policy authorization." quic_control critical
        ("sms.send" ∷ []) ("android.permission.SEND_SMS" ∷ []) [] true
    ∷ capability "android.phone.call" "Phone call"
        "Start a phone call through Android after explicit authorization." quic_control critical
        ("phone.call" ∷ [])
        ("android.permission.CALL_PHONE" ∷ "android.permission.READ_PHONE_STATE" ∷ []) [] true
    ∷ capability "android.clipboard.read" "Clipboard read"
        "Read current clipboard content with foreground and privacy constraints." quic_control high
        ("clipboard.read" ∷ []) [] ("foreground-required" ∷ []) true
    ∷ capability "android.clipboard.write" "Clipboard write"
        "Write clipboard content and mark sensitive clips when requested." quic_control high
        ("clipboard.write" ∷ []) [] ("sensitive-clip-flag" ∷ []) true
    ∷ capability "android.sensor.motion" "Motion and orientation sensors"
        "Subscribe to accelerometer, gyroscope and rotation vector updates." quic_datagram medium
        ("sensor.subscribe" ∷ "sensor.unsubscribe" ∷ []) [] [] false
    ∷ capability "android.app.list" "Application list"
        "List installed applications visible to the companion app package queries." quic_control
        medium ("app.list" ∷ []) [] ("package-visibility-query" ∷ []) true
    ∷ capability "android.volume.media" "Media volume control"
        "Read or change Android media stream volume." quic_control medium
        ("volume.get" ∷ "volume.set" ∷ []) [] [] false
    ∷ capability "android.ui.background_surface" "Background surface prompt"
        "Bring a controlled companion UI surface to foreground when policy allows it." quic_control
        high ("ui.surface.show" ∷ []) [] ("background-launch-policy" ∷ []) true
    ∷ capability "android.ui.overlay" "Overlay window"
        "Show a companion overlay after special overlay permission is granted." quic_control high
        ("overlay.show" ∷ "overlay.hide" ∷ []) ("android.permission.SYSTEM_ALERT_WINDOW" ∷ [])
        ("draw-over-apps" ∷ []) true
    ∷ capability "android.accessibility.control" "Accessibility control"
        "Perform accessibility-backed global actions and touch gestures after explicit user authorization."
        quic_control critical
        ("accessibility.status" ∷ "accessibility.global.back" ∷ "accessibility.global.home"
          ∷ "accessibility.global.recents" ∷ "accessibility.global.notifications"
          ∷ "accessibility.global.quickSettings" ∷ "accessibility.global.powerDialog"
          ∷ "accessibility.touch.tap" ∷ "accessibility.touch.swipe" ∷ [])
        [] ("accessibility-service" ∷ []) true
    ∷ capability "android.intent.chain_launch" "Chained intent launch"
        "Launch a declared chain of Android intents with strict validation." quic_control high
        ("intent.chainLaunch" ∷ []) [] ("explicit-intent-only" ∷ []) true
    ∷ []

-- `catalog.iter().find(|candidate| candidate.id == id)`
unfoldable pub find_capability : String → List Capability → Option Capability
find_capability id [] = none
find_capability id (c ∷ cs) =
    let rest = find_capability id cs in if c.id == id then some c else rest
