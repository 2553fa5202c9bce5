-- ===== src/Base/Map.antt =====
-- `HashMap` and `BTreeMap` with text keys: an association list in the order of the keys. That is
-- the order in which a `BTreeMap` is iterated; the order of a `HashMap` is not specified.
pub mod Unique
use Prim.Native.String.{String, compare}
use mathlib.Core.Path.{◌≡◌, refl}
use Prim.Native.Nat.{ℕ, suc}
use mathlib.Core.Bool.{Bool, true}
use webadbcontrol.Base.Lists.{length, filter}
use mathlib.Core.Option.{Option, none, some}
use mathlib.Core.List.{List, [], ◌∷◌}
use native.Mathlib.Omega.{arith}
use text.Mathlib.Text.{◌==◌, is_lt}
use text.Mathlib.TextEquality.{eq_iff}
use text.Mathlib.TextPositions.{eq_refl}
use webadbcontrol.Base.Tests.{if◌then◌else◌}

abbrev pub Map {ℓ} : Type ℓ → Type ℓ
Map V = List (String × V)

-- `sorts_before j k`: the key `j` is listed before the key `k`.
sorts_before : String → String → Bool
sorts_before j k = is_lt (compare j k)

module _ {ℓ} {V : Type ℓ} where
  unfoldable pub lookup : String → Map V → Option V
  lookup k [] = none
  lookup k ((j, v) ∷ m) = if j == k then some v else lookup k m

  unfoldable pub remove : String → Map V → Map V
  remove k [] = []
  remove k ((j, v) ∷ m) = let rest = remove k m in if j == k then rest else (j, v) ∷ rest

  -- An entry with a new key, at its place in the order.
  place : String → V → Map V → Map V
  unfolding sorts_before
  place k v [] = (k, v) ∷ []
  place k v ((j, w) ∷ m) =
      let rest = place k v m in if sorts_before k j then (k, v) ∷ (j, w) ∷ m else (j, w) ∷ rest

  unfoldable pub insert : String → V → Map V → Map V
  unfolding place remove
  insert k v m = place k v (remove k m)

  -- A key whose entry fails the test is gone. (The keys of a map are distinct, so the `remove`
  -- finds nothing; it lets the law of `retain` hold of every list.)
  unfoldable pub retain : (String → V → Bool) → Map V → Map V
  unfolding remove
  retain p [] = []
  retain p ((j, v) ∷ m) = let rest = retain p m in if p j v then (j, v) ∷ rest else remove j rest

  -- `values`
  unfoldable pub values : Map V → List V
  values [] = []
  values ((j, v) ∷ m) = v ∷ values m

  abbrev pub keys : Map V → List String
  keys [] = []
  keys ((j, v) ∷ m) = j ∷ keys m

  pub lookup-remove :
      (k j : String) (m : Map V) → lookup j (remove k m) ≡ (if k == j then none else lookup j m)
  unfolding lookup remove
  lookup-remove k j [] = ground arith
  lookup-remove k j ((i, w) ∷ m) =
      ground (arith, eq_iff k j, eq_iff i k, eq_iff i j, lookup-remove k j m)

  lookup-place :
      (k j : String) (v : V) (m : Map V)
      → lookup k m ≡ none
      → lookup j (place k v m) ≡ (if k == j then some v else lookup j m)
  unfolding lookup place
  lookup-place k j v [] h = refl
  lookup-place k j v ((i, w) ∷ m) h =
      ground (arith, eq_iff k j, eq_iff i k, eq_iff i j, lookup-place k j v m)

  pub lookup-insert :
      (k j : String) (v : V) (m : Map V)
      → lookup j (insert k v m) ≡ (if k == j then some v else lookup j m)
  unfolding insert
  lookup-insert k j v m = ground (
    arith,
    eq_iff k j,
    eq_refl k,
    lookup-remove k k m,
    lookup-remove k j m,
    lookup-place k j v (remove k m),
  )

  abbrev pub kept : (String → V → Bool) → String → Option V → Option V
  kept p j none = none
  kept p j (some v) = if p j v then some v else none

  pub lookup-retain :
      (p : String → V → Bool) (j : String) (m : Map V)
      → lookup j (retain p m) ≡ kept p j (lookup j m)
  unfolding lookup retain
  lookup-retain p j [] = refl
  lookup-retain p j ((i, w) ∷ m) =
      ground (arith, eq_iff i j, lookup-retain p j m, lookup-remove i j (retain p m))

  pub lookup-insert_self : (k : String) (v : V) (m : Map V) → lookup k (insert k v m) ≡ some v
  lookup-insert_self k v m = simp (lookup-insert, eq_refl)

  pub lookup-remove_self : (k : String) (m : Map V) → lookup k (remove k m) ≡ none
  lookup-remove_self k m = simp (lookup-remove, eq_refl)

  -- The keys that pass a test, before and after a new key.
  module _ (p : String → Bool) where
    abbrev pub count : Map V → ℕ
    count m = length (filter p (keys m))

    count-place :
        (k : String) (v : V) (m : Map V) → p k ≡ true → count (place k v m) ≡ suc (count m)
    unfolding place filter
    count-place k v [] h = ground arith
    count-place k v ((j, w) ∷ m) h = ground (arith, count-place k v m h)

    remove-missing : (k : String) (m : Map V) → lookup k m ≡ none → remove k m ≡ m
    unfolding lookup remove
    remove-missing k [] h = refl
    remove-missing k ((j, w) ∷ m) h = ground (arith, remove-missing k m)

    pub count-insert :
        (k : String) (v : V) (m : Map V)
        → lookup k m ≡ none
        → p k ≡ true
        → count (insert k v m) ≡ suc (count m)
    unfolding insert
    count-insert k v m missing h = rw (remove-missing k m missing) (count-place k v m h)

pub ruleset map_laws = (lookup-insert, lookup-remove, lookup-retain, eq_refl)
