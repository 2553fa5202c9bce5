-- ===== src/Remote/Identity.antt =====
-- remote/service.rs: when two device ids name one device, and which devices a session may use.
pub mod Equivalence
use webadbcontrol.Base.{
  ℕ, ◌≡◌, String, ◌==◌, Bool, true, false, not, ◌&&◌, ◌||◌, Option, none, some, List, [], ◌∷◌, any,
  all, ◌==ℕ◌, if◌then◌else◌, is_some,
}
use webadbcontrol.Base.Text.{Text, codes, text_eq, is_ascii_digit}
use webadbcontrol.Base.Map.{keys}
use webadbcontrol.Remote.Accounts.{AuthenticatedSession, DeviceSet}

abbrev cons_some : ℕ → Option Text → Option Text
cons_some c none = none
cons_some c (some t) = some (c ∷ t)

-- `str::strip_suffix`
abbrev pub strip_suffix : Text → Text → Option Text
strip_suffix suffix [] = if text_eq suffix [] then some [] else none
strip_suffix suffix (c ∷ s) =
    let rest = strip_suffix suffix s in if text_eq suffix (c ∷ s) then some [] else cons_some c rest

abbrev cons_first : ℕ → Option (Text × Text) → Option (Text × Text)
cons_first c none = none
cons_first c (some (before, after)) = some (c ∷ before, after)

abbrev after_paren : Text → Option (Text × Text)
after_paren [] = none
after_paren (d ∷ s) = if d ==ℕ b'(' then some ([], s) else none

-- `service.rfind(" (")`: what stands before the last occurrence, and after it.
abbrev pub split_at_last : Text → Option (Text × Text)
split_at_last [] = none
split_at_last (c ∷ s) =
    let rest = split_at_last s in
    if is_some rest then cons_first c rest else if c ==ℕ b' ' then after_paren s else none

abbrev pub suffix : Text
suffix = codes "._adb-tls-connect._tcp"

abbrev not_empty : Text → Bool
not_empty [] = false
not_empty (c ∷ s) = true

abbrev whole : Text → Option Text
whole service = if not_empty service then some service else none

-- The service's name, without the number that Android appends in brackets.
abbrev pub without_instance : Text → Option (Text × Text) → Option Text
without_instance service none = whole service
without_instance service (some (before, after)) = elim (strip_suffix (codes ")") after) [
  | none ↦ none
  | some instance_digits ↦
      if not_empty instance_digits && all is_ascii_digit instance_digits
      then some before
      else whole service
]

unfoldable pub normalized_mdns_service_identity : Text → Option Text
unfolding text_eq
normalized_mdns_service_identity value = elim (strip_suffix suffix value) [
  | none ↦ none
  | some service ↦ without_instance service (split_at_last service)
]

abbrev pub both_equal : Option Text → Option Text → Bool
both_equal none right = false
both_equal (some l) none = false
both_equal (some l) (some r) = text_eq l r

unfoldable pub same_remote_device_identity : String → String → Bool
unfolding normalized_mdns_service_identity
same_remote_device_identity left right =
    left == right
    || both_equal (normalized_mdns_service_identity (codes left))
        (normalized_mdns_service_identity (codes right))

unfoldable pub session_can_access_device : AuthenticatedSession → String → Bool
session_can_access_device session device_id =
    any (λ assigned. same_remote_device_identity assigned device_id) (keys session.devices)
