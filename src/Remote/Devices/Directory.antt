-- ===== src/Remote/Devices/Directory.antt =====
-- What one round of `reconcile_remote_device_list` does to the list of a remote user.
use webadbcontrol.Base.{
  ◌≡◌, refl, ap, ◌∙◌, String, Bool, true, false, not, ◌&&◌, Option, none, some, List, [], ◌∷◌, ◌++◌,
  any, all, any-append, all-append, filter, arith, Bool-cases, Option-cases, inl, inr, is_some,
}
use webadbcontrol.Remote.Identity.{same_remote_device_identity}
use webadbcontrol.Remote.Identity.Equivalence.{same_remote_device_identity_equivalence}
use webadbcontrol.Remote.Devices.{
  JsonDocument, Json, text_of, matches, is_known_as, better, best_of, registered_entry, first_of,
  remembered_id, find_same, entry_or_empty, updated_entry, reconcile_device,
}
use webadbcontrol.Remote.Devices.Entries.{Members, HasId, updated_entry-HasId}

abbrev pub same : String → String → Bool
same = same_remote_device_identity

module _ (D : JsonDocument) where
  abbrev KnownAs : String → Option (Json D) → Type 0
  KnownAs assigned none = Unit
  KnownAs assigned (some device) = is_known_as D assigned device ≡ true

  better-KnownAs :
      (assigned : String) (best : Option (Json D)) (device : Json D)
      → KnownAs assigned best
      → is_known_as D assigned device ≡ true
      → is_known_as D assigned (better D best device) ≡ true
  better-KnownAs assigned none device k h = h
  better-KnownAs assigned (some best) device k h = ground arith

  best_of-KnownAs :
      (assigned : String) (best : Option (Json D)) (registered : List (Json D))
      → KnownAs assigned best
      → KnownAs assigned (best_of D best (filter (is_known_as D assigned) registered))
  unfolding filter
  best_of-KnownAs assigned best [] k = k
  best_of-KnownAs assigned best (device ∷ devices) k =
      elim (Bool-cases (is_known_as D assigned device)) [
        | inl known ↦ rw (known) (
            best_of-KnownAs assigned (some (better D best device)) devices
              (better-KnownAs assigned best device k known))
        | inr other ↦ rw (other) (best_of-KnownAs assigned best devices k)
      ]

  find_same-same :
      (assigned : String) (ids : List String) (id : String)
      → find_same assigned ids ≡ some id
      → same assigned id ≡ true
  find_same-same assigned [] id h = cc
  find_same-same assigned (candidate ∷ more) id h = elim (Bool-cases (same assigned candidate)) [
    | inl found ↦ let is : candidate ≡ id = ground arith in rw⁻¹ is found
    | inr other ↦ find_same-same assigned more id (ground arith)
  ]

  known_as-id :
      (p : String → Bool) (o : Option String)
      → matches D p o ≡ true
      → (id : String) × (o ≡ some id) × (p id ≡ true)
  known_as-id p none h = cc
  known_as-id p (some id) h = (id, refl, h)

  remembered-same :
      (assigned : String) (entry : Option (Json D))
      → KnownAs assigned entry
      → same assigned (first_of D none (remembered_id D entry) assigned) ≡ true
  remembered-same assigned none k = same_remote_device_identity_equivalence.0 assigned
  remembered-same assigned (some device) k =
      let (known, is, h) =
        known_as-id (λ known. same known assigned) (text_of D device "deviceId") k in
      rw is (same_remote_device_identity_equivalence.1 known assigned h)

  display-same :
      (assigned : String) (current : Option String) (ids : List String) (entry : Option (Json D))
      → find_same assigned ids ≡ current
      → KnownAs assigned entry
      → same assigned (first_of D current (remembered_id D entry) assigned) ≡ true
  display-same assigned none ids entry e k = remembered-same assigned entry k
  display-same assigned (some id) ids entry e k = find_same-same assigned ids id e

  -- Two entries of one device.
  abbrev pub is_same_device : Json D → Json D → Bool
  is_same_device e f = matches D (λ id. is_known_as D id e) (text_of D f "deviceId")

  abbrev pub distinct : List (Json D) → Bool
  distinct [] = true
  distinct (e ∷ es) = not (any (is_same_device e) es) && distinct es

  distinct-append :
      (es : List (Json D)) (f : Json D)
      → distinct es ≡ true
      → any (λ e. is_same_device e f) es ≡ false
      → distinct (es ++ f ∷ []) ≡ true
  distinct-append [] f d fresh = refl
  distinct-append (e ∷ es) f d fresh =
      ground (arith, any-append (is_same_device e) es (f ∷ []), distinct-append es f)

  module _ (laws : Members D) (registered : List (Json D)) (ids : List String)
      (assigned : String) where
    abbrev pub entry : Option (Json D)
    entry = registered_entry D assigned registered

    abbrev pub display_id : String
    display_id = first_of D (find_same assigned ids) (remembered_id D entry) assigned

    entry-KnownAs : KnownAs assigned entry
    entry-KnownAs = best_of-KnownAs assigned none registered tt

    entry_is_object :
        (o : Option (Json D)) → KnownAs assigned o → D.is_object (entry_or_empty D o) ≡ true
    entry_is_object none k = laws.object_is_object []
    entry_is_object (some device) k = elim (Option-cases (D.reads.get device "deviceId")) [
      | inl missing ↦ absurd (ground arith)
      | inr (x, there) ↦ laws.get_is_object device "deviceId" x there
    ]

    pub display_id-same : same assigned display_id ≡ true
    display_id-same = display-same assigned (find_same assigned ids) ids entry refl entry-KnownAs

    added-HasId :
        HasId D (updated_entry D entry display_id (is_some (find_same assigned ids))) display_id
    added-HasId =
        updated_entry-HasId D laws entry display_id (is_some (find_same assigned ids))
          (entry_is_object entry entry-KnownAs)

    abbrev pub step : List (Json D) → List (Json D)
    step = reconcile_device D registered ids assigned

    added : Json D
    added = updated_entry D entry display_id (is_some (find_same assigned ids))

    pub step-any :
        (p : Json D → Bool) (done : List (Json D)) → any p done ≡ true → any p (step done) ≡ true
    unfolding reconcile_device added
    step-any p done h = elim (Bool-cases (any (is_known_as D display_id) done)) [
      | inl skipped ↦ rw skipped h
      | inr fresh ↦ rw fresh (ground (arith, any-append p done (added ∷ [])))
    ]

    pub step-all :
        (p : Option String → Bool) (done : List (Json D))
        → all (λ e. p (text_of D e "deviceId")) done ≡ true
        → p (some display_id) ≡ true
        → all (λ e. p (text_of D e "deviceId")) (step done) ≡ true
    unfolding reconcile_device added
    step-all p done h mine = elim (Bool-cases (any (is_known_as D display_id) done)) [
      | inl skipped ↦ rw skipped h
      | inr fresh ↦ rw fresh (
          ground (
            arith,
            all-append (λ e. p (text_of D e "deviceId")) done (added ∷ []),
            ap p added-HasId.1 ∙ mine,
          ))
    ]

    added_is_same :
        (done : List (Json D))
        → any (λ e. is_same_device e added) done ≡ any (is_known_as D display_id) done
    unfolding added
    added_is_same done =
        ap (λ o. any (λ e. matches D (λ id. is_known_as D id e) o) done) added-HasId.1

    pub step-distinct : (done : List (Json D)) → distinct done ≡ true → distinct (step done) ≡ true
    unfolding reconcile_device added
    step-distinct done h = elim (Bool-cases (any (is_known_as D display_id) done)) [
      | inl skipped ↦ rw skipped h
      | inr fresh ↦ rw fresh (distinct-append done added h (added_is_same done ∙ fresh))
    ]

    known_as_trans :
        (l r : String) (o : Option String)
        → same l r ≡ true
        → matches D (λ known. same known l) o ≡ true
        → matches D (λ known. same known r) o ≡ true
    known_as_trans l r none h k = cc
    known_as_trans l r (some known) h k = same_remote_device_identity_equivalence.2 known l r k h

    any_known_as :
        (l r : String) (done : List (Json D))
        → same l r ≡ true
        → any (is_known_as D l) done ≡ true
        → any (is_known_as D r) done ≡ true
    any_known_as l r [] h k = cc
    any_known_as l r (e ∷ es) h k =
        ground (arith, known_as_trans l r (text_of D e "deviceId") h, any_known_as l r es h)

    pub step-covers : (done : List (Json D)) → any (is_known_as D assigned) (step done) ≡ true
    unfolding reconcile_device added
    step-covers done =
        let back = same_remote_device_identity_equivalence.1 assigned display_id display_id-same in
        elim (Bool-cases (any (is_known_as D display_id) done)) [
          | inl skipped ↦ rw skipped (any_known_as display_id assigned done back skipped)
          | inr fresh ↦ rw fresh (
              ground (
                arith,
                any-append (is_known_as D assigned) done (added ∷ []),
                ap (matches D (λ known. same known assigned)) added-HasId.1 ∙ back,
              ))
        ]
