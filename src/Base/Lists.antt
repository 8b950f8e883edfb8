-- ===== src/Base/Lists.antt =====
-- Lists measured by native numbers, under the library's names, and predicates over their items.
use Prim.Native.Nat.{ℕ, zero, suc, ◌+◌, ◌≤◌}
use mathlib.Core.Path.{◌≡◌, refl}
use mathlib.Core.Bool.{Bool, true, false, not, ◌&&◌, ◌||◌}
use mathlib.Core.Option.{Option, none, some}
use mathlib.Core.List.{List, [], ◌∷◌, ◌++◌, map, Memᴰ}
use native.Mathlib.Omega.{arith}
use labrinth.Base.Tests.{if◌then◌else◌}

module _ {ℓ} {A : Type ℓ} where
  abbrev pub length : List A → ℕ
  length [] = 0
  length (x ∷ xs) = suc (length xs)

  abbrev pub get_or : List A → ℕ → A → A
  get_or [] i d = d
  get_or (x ∷ xs) zero d = x
  get_or (x ∷ xs) (suc i) d = get_or xs i d

  pub length-append : (xs ys : List A) → length (xs ++ ys) ≡ length xs + length ys
  length-append [] ys = omega arith
  length-append (x ∷ xs) ys = omega (arith, length-append xs ys)

  -- `iter().filter(p)`, over a Boolean test.
  abbrev pub filterb : (A → Bool) → List A → List A
  filterb p [] = []
  filterb p (x ∷ xs) = let rest = filterb p xs in if p x then x ∷ rest else rest

  -- `iter().any(p)`
  abbrev pub any : (A → Bool) → List A → Bool
  any p [] = false
  any p (x ∷ xs) = p x || any p xs

  -- `iter().find(p)`
  abbrev pub find : (A → Bool) → List A → Option A
  find p [] = none
  find p (x ∷ xs) = let rest = find p xs in if p x then some x else rest

  abbrev pub count_if : (A → Bool) → List A → ℕ
  count_if p [] = 0
  count_if p (x ∷ xs) = let rest = count_if p xs in if p x then suc rest else rest

  pub count_if-append :
      (p : A → Bool) (xs ys : List A) → count_if p (xs ++ ys) ≡ count_if p xs + count_if p ys
  count_if-append p [] ys = omega arith
  count_if-append p (x ∷ xs) ys = ground (arith, count_if-append p xs ys)

  pub count_if-any-false : (p : A → Bool) (xs : List A) → any p xs ≡ false → count_if p xs ≡ 0
  count_if-any-false p [] h = refl
  count_if-any-false p (x ∷ xs) h = ground (arith, count_if-any-false p xs)

  pub count_if-any-true : (p : A → Bool) (xs : List A) → any p xs ≡ true → 1 ≤ count_if p xs
  count_if-any-true p [] h = absurd (ground arith)
  count_if-any-true p (x ∷ xs) h = ground (arith, count_if-any-true p xs)

  -- The items that a filter removes are counted apart.
  pub count_if-filterb :
      (q p : A → Bool) (xs : List A)
      → count_if q xs ≡ count_if q (filterb (λ x. not (p x)) xs) + count_if (λ x. q x && p x) xs
  count_if-filterb q p [] = refl
  count_if-filterb q p (x ∷ xs) = ground (arith, count_if-filterb q p xs)

  pub count_if_ext :
      (p q : A → Bool) (xs : List A) → ((x : A) → p x ≡ q x) → count_if p xs ≡ count_if q xs
  count_if_ext p q [] h = refl
  count_if_ext p q (x ∷ xs) h = ground (arith, h x, count_if_ext p q xs h)

-- What every item has.
abbrev pub All {ℓ κ} : {Item : Type ℓ} → (Item → Type κ) → List Item → Type κ
All Holds [] = Unit
All Holds (item ∷ items) = Holds item × All Holds items

module _ {ℓ κ} {Item : Type ℓ} where
  pub All-Memᴰ :
      (Holds : Item → Type κ) (x : Item) (xs : List Item) → All Holds xs → Memᴰ x xs → Holds x
  All-Memᴰ Holds x [] h there = elim there [ ]
  All-Memᴰ Holds x (y ∷ xs) (h, rest) (Memᴰ.head e) = rw e h
  All-Memᴰ Holds x (y ∷ xs) (h, rest) (Memᴰ.tail there) = All-Memᴰ Holds x xs rest there

  pub All-of_Memᴰ :
      (Holds : Item → Type κ) (xs : List Item) → ((x : Item) → Memᴰ x xs → Holds x) → All Holds xs
  All-of_Memᴰ Holds [] h = tt
  All-of_Memᴰ Holds (x ∷ xs) h =
      (h x (Memᴰ.head refl), All-of_Memᴰ Holds xs (λ y there. h y (Memᴰ.tail there)))

  pub All-map :
      (P Q : Item → Type κ) (f : Item → Item) (xs : List Item)
      → ((x : Item) → P x → Q (f x))
      → All P xs
      → All Q (map f xs)
  All-map P Q f [] step h = tt
  All-map P Q f (x ∷ xs) step (h, rest) = (step x h, All-map P Q f xs step rest)
