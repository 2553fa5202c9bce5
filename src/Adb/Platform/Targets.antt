-- ===== src/Adb/Platform/Targets.antt =====
-- Every operating system and architecture that the two tables know make a supported target.
use webadbcontrol.Base.{
  ◌≡◌, refl, ap, ◌∙◌, String, ◌==◌, ◌<>◌, Bool, true, false, some, List, [], ◌∷◌, if◌then◌else◌,
  arith, inl, inr, ◌⊎◌, Bool-cases, Option-cases, eq_iff,
}
use webadbcontrol.Base.Text.{contains}
use webadbcontrol.Error.{Result, ok}
use webadbcontrol.Adb.Platform.{
  HostTarget, AdbAsset, AdbManifest, supported_targets, os_of, arch_of, from_parts, first_asset,
  find_adb_asset,
}

-- One row of a table of names.
chosen :
    (b : Bool) (x o : String) (rest : Result String)
    → (if b then ok x else rest) ≡ ok o
    → (o ≡ x) ⊎ (rest ≡ ok o)
chosen true x o rest h = inl (ground arith)
chosen false x o rest h = inr h

os_of-cases :
    (s o : String)
    → os_of s ≡ ok o
    → (o ≡ "windows") ⊎ ((o ≡ "macos") ⊎ ((o ≡ "linux") ⊎ (o ≡ "android")))
unfolding os_of
os_of-cases s o h = elim (chosen (contains s ("windows" ∷ "win32" ∷ [])) "windows" o _ h) [
  | inl is ↦ inl is
  | inr h1 ↦ elim (chosen (contains s ("macos" ∷ "darwin" ∷ "osx" ∷ [])) "macos" o _ h1) [
    | inl is ↦ inr (inl is)
    | inr h2 ↦ elim (chosen (s == "linux") "linux" o _ h2) [
      | inl is ↦ inr (inr (inl is))
      | inr h3 ↦ elim (chosen (s == "android") "android" o _ h3) [
        | inl is ↦ inr (inr (inr is))
        | inr h4 ↦ absurd (ground arith)
      ]
    ]
  ]
]

arch_of-cases : (s a : String) → arch_of s ≡ ok a → (a ≡ "x86_64") ⊎ (a ≡ "arm64")
unfolding arch_of
arch_of-cases s a h = elim (chosen (contains s ("x86_64" ∷ "amd64" ∷ [])) "x86_64" a _ h) [
  | inl is ↦ inl is
  | inr h1 ↦ elim (chosen (contains s ("aarch64" ∷ "arm64" ∷ [])) "arm64" a _ h1) [
    | inl is ↦ inr is
    | inr h2 ↦ absurd (ground arith)
  ]
]

all_supported :
    (o a : String)
    → (o ≡ "windows") ⊎ ((o ≡ "macos") ⊎ ((o ≡ "linux") ⊎ (o ≡ "android")))
    → (a ≡ "x86_64") ⊎ (a ≡ "arm64")
    → contains (o <> "-" <> a) supported_targets ≡ true
all_supported o a (inl p) (inl q) = rw (p, q) refl
all_supported o a (inl p) (inr q) = rw (p, q) refl
all_supported o a (inr (inl p)) (inl q) = rw (p, q) refl
all_supported o a (inr (inl p)) (inr q) = rw (p, q) refl
all_supported o a (inr (inr (inl p))) (inl q) = rw (p, q) refl
all_supported o a (inr (inr (inl p))) (inr q) = rw (p, q) refl
all_supported o a (inr (inr (inr p))) (inl q) = rw (p, q) refl
all_supported o a (inr (inr (inr p))) (inr q) = rw (p, q) refl

first_asset_id :
    (id : String) (assets : List AdbAsset) (a : AdbAsset)
    → first_asset id assets ≡ some a
    → a.target_id ≡ id
unfolding first_asset
first_asset_id id [] a h = absurd (ground arith)
first_asset_id id (b ∷ more) a h = elim (Bool-cases (b.target_id == id)) [
  | inl same ↦ ground (arith, eq_iff b.target_id id)
  | inr other ↦ first_asset_id id more a (ground arith)
]

-- Whenever the two tables know the host's names, its target is supported, so
-- PLATFORM_TARGET_UNSUPPORTED is never answered; and the asset found for it, in any manifest, is one
-- that is declared for that very target, so Core never runs another platform's binary.
pub from_parts-find_adb_asset :
    (lower : String → String) (os arch o a : String)
    → os_of (lower os) ≡ ok o
    → arch_of (lower arch) ≡ ok a
    → let target : HostTarget = record { os = o; arch = a; target_id = o <> "-" <> a } in
      (from_parts lower os arch ≡ ok target)
      × ((manifest : AdbManifest) (asset : AdbAsset)
          → find_adb_asset manifest target ≡ ok asset
          → asset.target_id ≡ o <> "-" <> a)
unfolding from_parts find_adb_asset
from_parts-find_adb_asset lower os arch o a ho ha =
    let listed =
      all_supported o a (os_of-cases (lower os) o ho) (arch_of-cases (lower arch) a ha) in
    (
      rw (ho, ha, listed) refl,
      (λ manifest asset h. elim (Option-cases (first_asset (o <> "-" <> a) manifest.assets)) [
        | inl missing ↦ absurd (ground arith)
        | inr (found, e) ↦
            let same : found ≡ asset = ground arith in
            first_asset_id (o <> "-" <> a) manifest.assets asset (e ∙ ap some same)
      ]),
    )
