-- ===== src/Companion/Registry/Refinement.antt =====
-- The list of connected devices as a map from their ids.
use webadbcontrol.Base.{
  ◌≡◌, refl, ap, String, ◌==◌, Bool, true, false, not, ◌&&◌, List, [], ◌∷◌, any, arith, eq_iff,
  Bool-cases, inl, inr,
}
use webadbcontrol.Base.Map.{Map, lookup, insert, remove, lookup-insert, lookup-remove}
use webadbcontrol.Error.{or_fail}
use webadbcontrol.Companion.Registry.{
  CompanionDevice, CompanionRegistry, not_connected, find_device, get_device, upsert, remove_device,
  find_device-upsert, find_device-remove_device,
}

pub data Call : Type 0 where
  upserts : CompanionDevice → Call
  removes : String → Call

unfoldable pub step : Call → CompanionRegistry → CompanionRegistry
step (upserts device) devices = upsert device devices
step (removes id) devices = remove_device id devices

unfoldable pub run : List Call → CompanionRegistry → CompanionRegistry
run [] devices = devices
run (call ∷ calls) devices = run calls (step call devices)

-- The specification: a map.
unfoldable pub step_map : Call → Map CompanionDevice → Map CompanionDevice
step_map (upserts device) m = insert device.device_id device m
step_map (removes id) m = remove id m

unfoldable pub run_map : List Call → Map CompanionDevice → Map CompanionDevice
run_map [] m = m
run_map (call ∷ calls) m = run_map calls (step_map call m)

abbrev has_id : String → CompanionDevice → Bool
has_id id d = d.device_id == id

abbrev pub distinct_ids : CompanionRegistry → Bool
distinct_ids [] = true
distinct_ids (d ∷ ds) = not (any (has_id d.device_id) ds) && distinct_ids ds

any-upsert :
    (device : CompanionDevice) (id : String) (ds : CompanionRegistry)
    → (device.device_id == id) ≡ false
    → any (has_id id) (upsert device ds) ≡ any (has_id id) ds
unfolding upsert
any-upsert device id [] h = ground arith
any-upsert device id (d ∷ ds) h = ground (
  arith,
  any-upsert device id ds h,
  eq_iff d.device_id device.device_id,
  eq_iff d.device_id id,
  eq_iff device.device_id id,
)

distinct-upsert :
    (device : CompanionDevice) (ds : CompanionRegistry)
    → distinct_ids ds ≡ true
    → distinct_ids (upsert device ds) ≡ true
unfolding upsert
distinct-upsert device [] h = refl
distinct-upsert device (d ∷ ds) h = elim (Bool-cases (d.device_id == device.device_id)) [
  | inl same ↦ let e : d.device_id ≡ device.device_id = (eq_iff _ _).0 same in rw same (rw (← e) h)
  | inr other ↦ rw other (
      ground (
        arith,
        distinct-upsert device ds,
        any-upsert device d.device_id ds,
        eq_iff d.device_id device.device_id,
        eq_iff device.device_id d.device_id,
      ))
]

any-remove_device :
    (gone id : String) (ds : CompanionRegistry)
    → any (has_id id) ds ≡ false
    → any (has_id id) (remove_device gone ds) ≡ false
unfolding remove_device
any-remove_device gone id [] h = refl
any-remove_device gone id (d ∷ ds) h = ground (arith, any-remove_device gone id ds)

distinct-remove_device :
    (gone : String) (ds : CompanionRegistry)
    → distinct_ids ds ≡ true
    → distinct_ids (remove_device gone ds) ≡ true
unfolding remove_device
distinct-remove_device gone [] h = refl
distinct-remove_device gone (d ∷ ds) h =
    ground (arith, distinct-remove_device gone ds, any-remove_device gone d.device_id ds)

-- The list and the map find the same device under each id.
Agree : CompanionRegistry → Map CompanionDevice → Type 0
Agree devices m = (id : String) → find_device id devices ≡ lookup id m

step-Agree :
    (call : Call) (devices : CompanionRegistry) (m : Map CompanionDevice)
    → Agree devices m
    → Agree (step call devices) (step_map call m)
unfolding step step_map Agree
step-Agree (upserts device) devices m agree id = ground (
  arith,
  agree id,
  find_device-upsert device id devices,
  lookup-insert device.device_id id device m,
)
step-Agree (removes gone) devices m agree id =
    ground (arith, agree id, find_device-remove_device gone id devices, lookup-remove gone id m)

run-Agree :
    (calls : List Call) (devices : CompanionRegistry) (m : Map CompanionDevice)
    → Agree devices m
    → Agree (run calls devices) (run_map calls m)
unfolding run run_map
run-Agree [] devices m agree = agree
run-Agree (call ∷ calls) devices m agree =
    run-Agree calls (step call devices) (step_map call m) (step-Agree call devices m agree)

run-distinct :
    (calls : List Call) (devices : CompanionRegistry)
    → distinct_ids devices ≡ true
    → distinct_ids (run calls devices) ≡ true
unfolding run step
run-distinct [] devices h = h
run-distinct (upserts device ∷ calls) devices h =
    run-distinct calls (upsert device devices) (distinct-upsert device devices h)
run-distinct (removes gone ∷ calls) devices h =
    run-distinct calls (remove_device gone devices) (distinct-remove_device gone devices h)

-- Whatever sequence of updates and removals an empty registry goes through, it implements a map from
-- device ids: it answers for each id as the map does that goes through the same sequence, and no two
-- devices of its list have one id.
pub run-run_map :
    (calls : List Call) (id : String)
    → (get_device id (run calls []) ≡ or_fail (lookup id (run_map calls [])) (not_connected id))
      × (distinct_ids (run calls []) ≡ true)
unfolding get_device Agree find_device lookup
run-run_map calls id = (
  ap (λ o. or_fail o (not_connected id)) (run-Agree calls [] [] (λ j. refl) id),
  run-distinct calls [] refl,
)
