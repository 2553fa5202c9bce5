-- ===== src/Base/Map/Unique.antt =====
-- The keys of a map are distinct, and stay so.
use Prim.Native.String.{String}
use mathlib.Core.Path.{◌≡◌, refl}
use mathlib.Core.Option.{none}
use mathlib.Core.List.{[], ◌∷◌}
use native.Mathlib.Omega.{arith}
use text.Mathlib.TextEquality.{eq_iff}
use text.Mathlib.TextPositions.{eq_refl}
use webadbcontrol.Base.Map.{Map, lookup, remove, place, insert, lookup-remove, lookup-place}

module _ {ℓ} {V : Type ℓ} where
  abbrev pub Unique : Map V → Type ℓ
  Unique [] = Unit
  Unique ((j, v) ∷ m) = (lookup j m ≡ none) × Unique m

  pub remove-Unique : (k : String) (m : Map V) → Unique m → Unique (remove k m)
  unfolding remove
  remove-Unique k [] u = tt
  remove-Unique k ((j, v) ∷ m) u =
      ground (arith, eq_iff k j, remove-Unique k m u.1, lookup-remove k j m)

  place-Unique :
      (k : String) (v : V) (m : Map V) → lookup k m ≡ none → Unique m → Unique (place k v m)
  unfolding place lookup
  place-Unique k v [] h u = (refl, tt)
  place-Unique k v ((j, w) ∷ m) h u =
      ground (arith, eq_iff k j, eq_iff j k, place-Unique k v m, lookup-place k j v m)

  pub insert-Unique : (k : String) (v : V) (m : Map V) → Unique m → Unique (insert k v m)
  unfolding insert
  insert-Unique k v m u =
      place-Unique k v (remove k m) (ground (arith, lookup-remove k k m, eq_refl k))
        (remove-Unique k m u)
