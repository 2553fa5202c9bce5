-- ===== src/Remote/Devices/Assigned.antt =====
-- What the device list of a remote user holds.
use webadbcontrol.Base.{◌≡◌, refl, String, Bool, true, List, [], ◌∷◌, any, all, arith}
use webadbcontrol.Base.Map.{keys}
use webadbcontrol.Remote.Accounts.{AuthenticatedSession}
use webadbcontrol.Remote.Identity.{session_can_access_device}
use webadbcontrol.Remote.Identity.Equivalence.{
  same_remote_device_identity_equivalence, session_can_access_device-same,
}
use webadbcontrol.Remote.Devices.{
  JsonDocument, Json, text_of, matches, is_known_as, reconcile_device, reconcile_all,
  reconcile_remote_device_list,
}
use webadbcontrol.Remote.Devices.Entries.{Members}
use webadbcontrol.Remote.Devices.Directory.{
  same, distinct, display_id, display_id-same, step-any, step-all, step-distinct, step-covers,
}

module _ (D : JsonDocument) (laws : Members D) (registered : List (Json D))
    (current : List String) where
  abbrev next : String → List (Json D) → List (Json D)
  next = reconcile_device D registered current

  abbrev all_of : List String → List (Json D) → List (Json D)
  all_of = reconcile_all D registered current

  any-all_of :
      (p : Json D → Bool) (ids : List String) (done : List (Json D))
      → any p done ≡ true
      → any p (all_of ids done) ≡ true
  unfolding reconcile_all
  any-all_of p [] done h = h
  any-all_of p (a ∷ ids) done h =
      any-all_of p ids (next a done) (step-any D laws registered current a p done h)

  distinct-all_of :
      (ids : List String) (done : List (Json D))
      → distinct D done ≡ true
      → distinct D (all_of ids done) ≡ true
  unfolding reconcile_all
  distinct-all_of [] done h = h
  distinct-all_of (a ∷ ids) done h =
      distinct-all_of ids (next a done) (step-distinct D laws registered current a done h)

  covers-all_of :
      (ids : List String) (done : List (Json D))
      → all (λ a. any (is_known_as D a) (all_of ids done)) ids ≡ true
  unfolding reconcile_all
  covers-all_of [] done = refl
  covers-all_of (a ∷ ids) done = ground (
    arith,
    any-all_of (is_known_as D a) ids (next a done) (step-covers D laws registered current a done),
    covers-all_of ids (next a done),
  )

  accessible-all_of :
      (p : String → Bool) (ids : List String) (done : List (Json D))
      → ((l r : String) → p l ≡ true → same l r ≡ true → p r ≡ true)
      → all p ids ≡ true
      → all (λ e. matches D p (text_of D e "deviceId")) done ≡ true
      → all (λ e. matches D p (text_of D e "deviceId")) (all_of ids done) ≡ true
  unfolding reconcile_all
  accessible-all_of p [] done closed h k = k
  accessible-all_of p (a ∷ ids) done closed h k =
      accessible-all_of p ids (next a done) closed (ground arith) (
        step-all D laws registered current a (matches D p) done k (
          closed a (display_id D laws registered current a) (ground arith)
            (display_id-same D laws registered current a)))

more_ids :
    (b : String) (ids rest : List String)
    → all (λ a. any (λ c. same c a) ids) rest ≡ true
    → all (λ a. any (λ c. same c a) (b ∷ ids)) rest ≡ true
more_ids b ids [] h = refl
more_ids b ids (a ∷ rest) h = ground (arith, more_ids b ids rest)

own_ids : (ids : List String) → all (λ a. any (λ c. same c a) ids) ids ≡ true
own_ids [] = refl
own_ids (a ∷ ids) =
    ground (arith, same_remote_device_identity_equivalence.0 a, more_ids a ids ids (own_ids ids))

-- Whatever Core lists and adb answers: each entry of the list that a remote user is shown has the id
-- of a device that is assigned to the user, every assigned device has an entry, connected or not,
-- and no two entries are of one device.
pub reconcile_remote_device_list-Assigned :
    (D : JsonDocument) (laws : Members D) (devices : List (Json D)) (session : AuthenticatedSession)
    (current : List String)
    → let shown = reconcile_remote_device_list D devices session current in
      (all (λ e. matches D (session_can_access_device session) (text_of D e "deviceId")) shown
        ≡ true)
      × (all (λ a. any (is_known_as D a) shown) (keys session.devices) ≡ true)
      × (distinct D shown ≡ true)
unfolding reconcile_remote_device_list session_can_access_device
reconcile_remote_device_list-Assigned D laws devices session current =
    let ids = keys session.devices in
    (
      accessible-all_of D laws devices current (session_can_access_device session) ids []
          (λ l r h k. session_can_access_device-same session l r k h) (own_ids ids) refl,
      covers-all_of D laws devices current ids [],
      distinct-all_of D laws devices current ids [] refl,
    )
