-- ===== src/Adb/Wireless/Advertised.antt =====
-- The endpoint that `find_pairing_endpoint` finds is one that adb lists.
use webadbcontrol.Base.{
  ◌≡◌, ap, ◌∙◌, Option, none, some, List, [], ◌∷◌, arith, inl, inr, Bool-cases, Option-cases,
}
use webadbcontrol.Base.Text.{Text, text_eq, text_eq-eq}
use webadbcontrol.Adb.Wireless.Lines.{
  split_whitespace, pairing_service, endpoint_of, first_some, find_endpoint,
}

-- A line advertises the service for pairing, at the endpoint.
pub data Advertised (service : Text) (endpoint : Text) : List Text → Type 0 where
  here :
      (line : Text) (more : List Text) (rest : List Text)
      → split_whitespace line ≡ service ∷ pairing_service ∷ endpoint ∷ rest
      → Advertised service endpoint (line ∷ more)
  there :
      (line : Text) (more : List Text)
      → Advertised service endpoint more
      → Advertised service endpoint (line ∷ more)

endpoint_of_lem :
    (service endpoint : Text) (fields : List Text)
    → endpoint_of service fields ≡ some endpoint
    → (rest : List Text) × (fields ≡ service ∷ pairing_service ∷ endpoint ∷ rest)
endpoint_of_lem service endpoint [] h = absurd (ground arith)
endpoint_of_lem service endpoint (a ∷ []) h = absurd (ground arith)
endpoint_of_lem service endpoint (a ∷ b ∷ []) h = absurd (ground arith)
endpoint_of_lem service endpoint (a ∷ b ∷ c ∷ rest) h = elim (Bool-cases (text_eq a service)) [
  | inr other ↦ absurd (ground arith)
  | inl same ↦ elim (Bool-cases (text_eq b pairing_service)) [
    | inr other ↦ absurd (ground arith)
    | inl pairs ↦
        (rest, ground (arith, text_eq-eq a service same, text_eq-eq b pairing_service pairs))
  ]
]

first_some-none : (a b : Option Text) (t : Text) → a ≡ none → first_some a b ≡ some t → b ≡ some t
first_some-none none b t e h = h
first_some-none (some s) b t e h = cc

first_some-some : (a b : Option Text) (t s : Text) → a ≡ some s → first_some a b ≡ some t → s ≡ t
first_some-some none b t s e h = cc
first_some-some (some r) b t s e h = cc

pub find_endpoint-Advertised :
    (service endpoint : Text) (all_lines : List Text)
    → find_endpoint service all_lines ≡ some endpoint
    → Advertised service endpoint all_lines
unfolding find_endpoint
find_endpoint-Advertised service endpoint [] h = absurd (ground arith)
find_endpoint-Advertised service endpoint (line ∷ more) h =
    elim (Option-cases (endpoint_of service (split_whitespace line))) [
      | inl e ↦ there line more (
          find_endpoint-Advertised service endpoint more (
            first_some-none (endpoint_of service (split_whitespace line))
              (find_endpoint service more) endpoint e h))
      | inr (found, e) ↦
          let same : found ≡ endpoint =
            first_some-some (endpoint_of service (split_whitespace line))
              (find_endpoint service more) endpoint found e h in
          let (rest, fields) =
            endpoint_of_lem service endpoint (split_whitespace line) (e ∙ ap some same) in
          here line more rest fields
    ]
