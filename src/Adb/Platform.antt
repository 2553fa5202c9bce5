-- ===== src/Adb/Platform.antt =====
-- platform.rs and assets.rs: the host's target and the adb binary declared for it.
pub mod Targets
use webadbcontrol.Base.{
  ℕ, ◌≡◌, refl, String, ◌==◌, ◌<>◌, Bool, true, false, not, Option, none, some, List, [], ◌∷◌, any,
  ◌==ℕ◌, if◌then◌else◌, ◌⊎◌, inl, inr,
}
use webadbcontrol.Base.Text.{contains, show_ℕ}
use webadbcontrol.Error.{
  AppError, new, with_suggestion, with_cause, Result, ok, err, ◌>>=◌, ◌>>◌, fail_if, or_fail,
}

pub record HostTarget : Type 0 where
  pub os : String
  pub arch : String
  pub target_id : String

unfoldable pub platform_error : String → String → AppError
unfolding new
platform_error error_code message = new error_code message "platform.target" false

unfoldable pub target_unsupported : String → AppError
unfolding platform_error with_suggestion
target_unsupported target_id =
    with_suggestion
      (platform_error "PLATFORM_TARGET_UNSUPPORTED" ("Unsupported host target: " <> target_id))
      "Add the target to HostTarget and assets/adb/manifest.json before shipping."

abbrev pub supported_targets : List String
supported_targets =
    "windows-x86_64" ∷ "windows-arm64" ∷ "macos-x86_64" ∷ "macos-arm64" ∷ "linux-x86_64"
    ∷ "linux-arm64" ∷ "android-x86_64" ∷ "android-arm64" ∷ []

-- Of a name in lower case.
unfoldable pub os_of : String → Result String
os_of os =
    if contains os ("windows" ∷ "win32" ∷ [])
    then ok "windows"
    else if contains os ("macos" ∷ "darwin" ∷ "osx" ∷ [])
    then ok "macos"
    else if os == "linux"
    then ok "linux"
    else if os == "android"
    then ok "android"
    else err (platform_error "PLATFORM_OS_UNSUPPORTED" ("Unsupported operating system: " <> os))

unfoldable pub arch_of : String → Result String
arch_of arch =
    if contains arch ("x86_64" ∷ "amd64" ∷ [])
    then ok "x86_64"
    else if contains arch ("aarch64" ∷ "arm64" ∷ [])
    then ok "arm64"
    else err (platform_error "PLATFORM_ARCH_UNSUPPORTED" ("Unsupported CPU architecture: " <> arch))

-- `to_ascii_lowercase` is the standard library's.
module _ (to_ascii_lowercase : String → String) where
  unfoldable pub from_parts : String → String → Result HostTarget
  from_parts os arch = do
    os ← os_of (to_ascii_lowercase os)
    arch ← arch_of (to_ascii_lowercase arch)
    let target_id = os <> "-" <> arch
    fail_if (not (contains target_id supported_targets)) (target_unsupported target_id)
    ok (record { os = os; arch = arch; target_id = target_id })

pub data AdbAssetSource : Type 0 where
  official_platform_tools custom_github_build : AdbAssetSource

pub record AdbAsset : Type 0 where
  pub target_id : String
  pub path : String
  pub source : AdbAssetSource
  pub sha256 : Option String

pub record AdbManifest : Type 0 where
  pub schema_version : ℕ
  pub adb_version : String
  pub assets : List AdbAsset

unfoldable pub assets_error : String → String → AppError
unfolding new
assets_error error_code message = new error_code message "adb.assets" false

unfoldable pub asset_not_found : String → AppError
unfolding assets_error with_suggestion
asset_not_found target_id =
    with_suggestion
      (assets_error "ADB_ASSET_NOT_FOUND" ("No ADB asset is declared for target " <> target_id))
      "Build or download the target ADB binary and add it to assets/adb/manifest.json."

-- `from_str` is serde_json's decoder of the manifest.
unfoldable pub parse_manifest_str : (String → String ⊎ AdbManifest) → String → Result AdbManifest
unfolding with_cause assets_error
parse_manifest_str from_str content = elim (from_str content) [
  | inl cause ↦ err (
      with_cause (assets_error "ADB_MANIFEST_INVALID_JSON" "ADB asset manifest is not valid JSON.")
        cause)
  | inr manifest ↦
      if manifest.schema_version ==ℕ 1
      then ok manifest
      else err (
          assets_error "ADB_MANIFEST_SCHEMA_UNSUPPORTED"
            ("Unsupported ADB manifest schema version: " <> show_ℕ manifest.schema_version))
]

unfoldable pub first_asset : String → List AdbAsset → Option AdbAsset
first_asset target_id [] = none
first_asset target_id (a ∷ more) =
    let rest = first_asset target_id more in if a.target_id == target_id then some a else rest

unfoldable pub find_adb_asset : AdbManifest → HostTarget → Result AdbAsset
unfolding first_asset
find_adb_asset manifest target =
    or_fail (first_asset target.target_id manifest.assets) (asset_not_found target.target_id)
