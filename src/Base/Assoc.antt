-- ===== src/Base/Assoc.antt =====
-- A `HashMap` as the list of its entries. The program never depends on the order of a map.
use labrinth.Base.Tests.{◌==◌, if◌then◌else◌}
use Prim.Native.Nat.{ℕ}
use mathlib.Core.Path.{◌≡◌, refl}
use mathlib.Core.Option.{Option, none, some}
use mathlib.Core.List.{List, [], ◌∷◌}
use native.Mathlib.Omega.{arith}

module _ {ℓ} {Value : Type ℓ} where
  -- `get`
  unfoldable pub lookup : ℕ → List (ℕ × Value) → Option Value
  lookup key [] = none
  lookup key (entry ∷ rest) = if entry.0 == key then some entry.1 else lookup key rest

  -- `insert`: an entry of the key is overwritten in its place.
  unfoldable pub insert : ℕ → Value → List (ℕ × Value) → List (ℕ × Value)
  insert key value [] = (key, value) ∷ []
  insert key value (entry ∷ rest) =
      let there = insert key value rest in
      if entry.0 == key then (key, value) ∷ rest else entry ∷ there

  pub lookup-insert :
      (key other : ℕ) (value : Value) (entries : List (ℕ × Value))
      → lookup other (insert key value entries)
        ≡ (if key == other then some value else lookup other entries)
  unfolding lookup insert
  lookup-insert key other value [] = refl
  lookup-insert key other value (entry ∷ rest) = ground (arith, lookup-insert key other value rest)

  -- No key has two entries.
  abbrev pub UniqueKeys : List (ℕ × Value) → Type ℓ
  UniqueKeys [] = Unit
  UniqueKeys (entry ∷ rest) = (lookup entry.0 rest ≡ none) × UniqueKeys rest

  pub insert-UniqueKeys :
      (key : ℕ) (value : Value) (entries : List (ℕ × Value))
      → UniqueKeys entries
      → UniqueKeys (insert key value entries)
  unfolding lookup insert
  insert-UniqueKeys key value [] h = (refl, tt)
  insert-UniqueKeys key value (entry ∷ rest) (fresh, h) =
      ground (arith, insert-UniqueKeys key value rest h, lookup-insert key entry.0 value rest)
