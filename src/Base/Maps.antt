-- ===== src/Base/Maps.antt =====
-- `std::collections::HashMap` with number keys as an association list. The order of the list stands
-- for the iteration order of the map, of which the theorems assume nothing.
use Prim.Native.Nat.{ℕ, ◌+◌}
use mathlib.Core.Path.{◌≡◌, refl}
use mathlib.Core.Logic.{◌≢◌}
use mathlib.Core.Bool.{Bool, true, false}
use mathlib.Core.Option.{Option, none, some}
use mathlib.Core.List.{List, [], ◌∷◌}
use native.Mathlib.Omega.{arith}
use modular_rust_platform.Base.Tests.{◌==◌, if◌then◌else◌}
use modular_rust_platform.Base.Lists.{length, In}

abbrev pub Map {ℓ} : Type ℓ → Type ℓ
Map V = List (ℕ × V)

module _ {ℓ} {V : Type ℓ} where
  abbrev pub get : Map V → ℕ → Option V
  get [] k = none
  get ((j, v) ∷ m) k = if j == k then some v else get m k

  abbrev pub insert : ℕ → V → Map V → Map V
  insert k v [] = (k, v) ∷ []
  insert k v ((j, w) ∷ m) = if j == k then (k, v) ∷ m else (j, w) ∷ insert k v m

  abbrev pub keys : Map V → List ℕ
  keys [] = []
  keys ((j, v) ∷ m) = j ∷ keys m

  abbrev pub contains_key : Map V → ℕ → Bool
  contains_key m k = elim (get m k) [ none ↦ false | some _ ↦ true ]

  pub get-insert :
      (k : ℕ) (v : V) (m : Map V) (j : ℕ)
      → get (insert k v m) j ≡ (if k == j then some v else get m j)
  get-insert k v [] j = refl
  get-insert k v ((i, w) ∷ m) j = ground (arith, get-insert k v m j)

  -- Inserting under a new key adds one entry; under an old key it replaces one.
  pub length-insert :
      (k : ℕ) (v : V) (m : Map V)
      → length (insert k v m) ≡ (if contains_key m k then length m else length m + 1)
  length-insert k v [] = omega arith
  length-insert k v ((i, w) ∷ m) = ground (arith, length-insert k v m)

  pub In-keys_of_get : (m : Map V) (k : ℕ) (v : V) → get m k ≡ some v → In k (keys m)
  In-keys_of_get [] k v h = cc
  In-keys_of_get ((j, w) ∷ m) k v h = ground (arith, In-keys_of_get m k v)

  pub get_of_In-keys : (m : Map V) (k : ℕ) → In k (keys m) → get m k ≢ none
  get_of_In-keys [] k h = absurd h
  get_of_In-keys ((j, w) ∷ m) k h = ground (arith, get_of_In-keys m k)

  pub length-keys : (m : Map V) → length (keys m) ≡ length m
  length-keys [] = refl
  length-keys ((j, w) ∷ m) = omega (arith, length-keys m)
