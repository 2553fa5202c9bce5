-- ===== src/Remote/Identity/Equivalence.antt =====
-- The ids of one device are a class: which of them a request names makes no difference.
use webadbcontrol.Base.{
  ◌≡◌, refl, ap, ◌∙◌, sym, String, ◌==◌, true, Option, none, some, List, [], ◌∷◌, any, arith, inl,
  inr, ◌⊎◌, Bool-cases, eq_iff,
}
use webadbcontrol.Base.Text.{Text, codes, text_eq-eq, text_eq_refl}
use webadbcontrol.Base.Map.{keys}
use webadbcontrol.Remote.Accounts.{AuthenticatedSession}
use webadbcontrol.Remote.Identity.{
  normalized_mdns_service_identity, both_equal, same_remote_device_identity,
  session_can_access_device,
}

abbrev identity : String → Option Text
identity s = normalized_mdns_service_identity (codes s)

-- The ids are equal, or both have the same service name.
abbrev Same : String → String → Type 0
Same l r = (l ≡ r) ⊎ ((t : Text) × (identity l ≡ some t) × (identity r ≡ some t))

both_equal-eq :
    (a b : Option Text) → both_equal a b ≡ true → (t : Text) × (a ≡ some t) × (b ≡ some t)
both_equal-eq none b h = absurd (ground arith)
both_equal-eq (some l) none h = absurd (ground arith)
both_equal-eq (some l) (some r) h = (l, refl, ap some (sym (text_eq-eq l r h)))

to_Same : (l r : String) → same_remote_device_identity l r ≡ true → Same l r
unfolding same_remote_device_identity
to_Same l r h = elim (Bool-cases (l == r)) [
  | inl e ↦ inl ((eq_iff l r).0 e)
  | inr e ↦ inr (both_equal-eq (identity l) (identity r) (ground arith))
]

of_Same : (l r : String) → Same l r → same_remote_device_identity l r ≡ true
unfolding same_remote_device_identity
of_Same l r (inl e) = ground (arith, eq_iff l r)
of_Same l r (inr (t, el, er)) = ground (arith, text_eq_refl t)

-- The relation is an equivalence, although only ids of the wireless service are compared by name.
pub same_remote_device_identity_equivalence :
    ((l : String) → same_remote_device_identity l l ≡ true)
    × ((l r : String)
        → same_remote_device_identity l r ≡ true
        → same_remote_device_identity r l ≡ true)
    × ((l m r : String)
        → same_remote_device_identity l m ≡ true
        → same_remote_device_identity m r ≡ true
        → same_remote_device_identity l r ≡ true)
same_remote_device_identity_equivalence = (
  (λ l. of_Same l l (inl refl)),
  (λ l r h. elim (to_Same l r h) [
    | inl e ↦ of_Same r l (inl (sym e))
    | inr (t, el, er) ↦ of_Same r l (inr (t, er, el))
  ]),
  (λ l m r h k. elim (to_Same l m h) [
    | inl e ↦ rw e k
    | inr (t, el, em) ↦ elim (to_Same m r k) [
      | inl e ↦ of_Same l r (inr (t, el, ap identity (sym e) ∙ em))
      | inr (u, fm, fr) ↦ of_Same l r (inr (t, el, fr ∙ sym fm ∙ em))
    ]
  ]),
)

any_same :
    (ids : List String) (l r : String)
    → same_remote_device_identity l r ≡ true
    → any (λ a. same_remote_device_identity a l) ids ≡ true
    → any (λ a. same_remote_device_identity a r) ids ≡ true
any_same [] l r h k = k
any_same (a ∷ ids) l r h k = elim (Bool-cases (same_remote_device_identity a l)) [
  | inl here ↦ ground (arith, same_remote_device_identity_equivalence.2 a l r here h)
  | inr other ↦ ground (arith, any_same ids l r h)
]

-- A session that may use a device may use it under each of its ids.
pub session_can_access_device-same :
    (session : AuthenticatedSession) (l r : String)
    → same_remote_device_identity l r ≡ true
    → session_can_access_device session l ≡ true
    → session_can_access_device session r ≡ true
unfolding session_can_access_device
session_can_access_device-same session l r h k = any_same (keys session.devices) l r h k
