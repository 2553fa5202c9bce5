-- ===== src/Companion/Registry.antt =====
-- companion/registry.rs: the devices that Core shows as connected. Every clone of a registry shares
-- one list behind a lock, so the list is the state.
pub mod Refinement
use webadbcontrol.Base.{
  ℕ, ◌≡◌, refl, String, ◌==◌, ◌<>◌, true, Option, none, some, List, [], ◌∷◌, if◌then◌else◌, eq_iff,
  arith,
}
use webadbcontrol.Error.{AppError, new, with_suggestion, Result, or_fail}
use webadbcontrol.Companion.Capability.{Capability, CapabilityPermissionState}

pub data ConnectionState : Type 0 where
  disconnected connecting handshaking ready degraded failed : ConnectionState

pub record CompanionDevice : Type 0 where
  pub device_id : String
  pub display_name : String
  pub app_version : String
  pub android_sdk : ℕ
  pub connection_state : ConnectionState
  pub capabilities : List Capability
  pub permission_states : List CapabilityPermissionState

abbrev pub CompanionRegistry : Type 0
CompanionRegistry = List CompanionDevice

unfoldable pub not_connected : String → AppError
unfolding new with_suggestion
not_connected device_id =
    with_suggestion
      (new "COMPANION_DEVICE_NOT_CONNECTED"
        ("Android companion device is not connected: " <> device_id) "companion.registry" true)
      "Pair the Android companion app with Core before invoking capabilities."

unfoldable pub find_device : String → CompanionRegistry → Option CompanionDevice
find_device device_id [] = none
find_device device_id (d ∷ ds) =
    let rest = find_device device_id ds in if d.device_id == device_id then some d else rest

unfoldable pub get_device : String → CompanionRegistry → Result CompanionDevice
unfolding find_device
get_device device_id devices = or_fail (find_device device_id devices) (not_connected device_id)

-- The first entry of the device is overwritten; a device without an entry is appended.
unfoldable pub upsert : CompanionDevice → CompanionRegistry → CompanionRegistry
upsert device [] = device ∷ []
upsert device (d ∷ ds) =
    let rest = upsert device ds in if d.device_id == device.device_id then device ∷ ds else d ∷ rest

unfoldable pub remove_device : String → CompanionRegistry → CompanionRegistry
remove_device device_id [] = []
remove_device device_id (d ∷ ds) =
    let rest = remove_device device_id ds in if d.device_id == device_id then rest else d ∷ rest

pub find_device-upsert :
    (device : CompanionDevice) (id : String) (ds : CompanionRegistry)
    → find_device id (upsert device ds)
      ≡ (if device.device_id == id then some device else find_device id ds)
unfolding find_device upsert
find_device-upsert device id [] = refl
find_device-upsert device id (d ∷ ds) = ground (
  arith,
  find_device-upsert device id ds,
  eq_iff d.device_id device.device_id,
  eq_iff d.device_id id,
  eq_iff device.device_id id,
)

pub find_device-remove_device :
    (gone id : String) (ds : CompanionRegistry)
    → find_device id (remove_device gone ds) ≡ (if gone == id then none else find_device id ds)
unfolding find_device remove_device
find_device-remove_device gone id [] = ground arith
find_device-remove_device gone id (d ∷ ds) = ground (
  arith,
  find_device-remove_device gone id ds,
  eq_iff d.device_id gone,
  eq_iff d.device_id id,
  eq_iff gone id,
)
