-- ===== src/Flags/Laws.antt =====
-- Sets of flags behind the interface: inclusion is a preorder, and a union is a least upper bound.
use mathlib.Core.List.{foldl}
use labrinth.Base.{
  ℕ, ◌<◌, ◌≡◌, ◌↔◌, ◌⊎◌, inl, inr, true, false, not, ◌||◌, arith, Bool-cases, List, [], ◌∷◌, All,
  all_below, all_below_sound, ◌==◌,
}
use labrinth.Flags.{bit, IsSubset, Bitflags}

IsSubset-trans : {a b c : ℕ} → IsSubset a b → IsSubset b c → IsSubset a c
IsSubset-trans p q i h one = q i h (p i h one)

-- A statement that needs `unfold` nowhere: each side of a disjunction is sent to `P`.
either {ℓ} : {A B : Type 0} {P : Type ℓ} → A ⊎ B → (A → P) → (B → P) → P
either (inl a) f g = f a
either (inr b) f g = g b

bit_of : (a b i : ℕ) → bit b i ≡ 1 → (not (bit b i == 1) || (bit a i == 1)) ≡ true → bit a i ≡ 1
bit_of a b i one h = ground arith

module _ (flags : Bitflags) where
  open flags use {contains, union, contains_iff, union_iff}

  pub contains_refl : (a : ℕ) → contains a a ≡ true
  contains_refl a = (contains_iff a a).1 (λ i h one. one)

  pub contains_trans : (a b c : ℕ) → contains a b ≡ true → contains b c ≡ true → contains a c ≡ true
  contains_trans a b c p q =
      (contains_iff a c).1 (IsSubset-trans ((contains_iff b c).0 q) ((contains_iff a b).0 p))

  pub contains-union :
      (a b c : ℕ)
      → (contains a (union b c) ≡ true) ↔ ((contains a b ≡ true) × (contains a c ≡ true))
  contains-union a b c = (
    λ h. (
      (contains_iff a b).1
          (λ i lt one. (contains_iff a (union b c)).0 h i lt ((union_iff b c i lt).1 (inl one))),
      (contains_iff a c).1
          (λ i lt one. (contains_iff a (union b c)).0 h i lt ((union_iff b c i lt).1 (inr one))),
    ),
    λ h. (contains_iff a (union b c)).1 (λ i lt one.
        either ((union_iff b c i lt).0 one) ((contains_iff a b).0 h.0 i lt)
          ((contains_iff a c).0 h.1 i lt)),
  )

  pub contains-foldl :
      (a b : ℕ) (bs : List ℕ)
      → (contains a (foldl union b bs) ≡ true)
        ↔ ((contains a b ≡ true) × All (λ c. contains a c ≡ true) bs)
  contains-foldl a b [] = (λ h. (h, tt), λ h. h.0)
  contains-foldl a b (c ∷ bs) = (
    λ h.
        let (front, rest) = (contains-foldl a (union b c) bs).0 h in
        let (p, q) = (contains-union a b c).0 front in (p, (q, rest)),
    λ (p, (q, rest)). (contains-foldl a (union b c) bs).1 ((contains-union a b c).1 (p, q), rest),
  )

  -- Inclusion of two given sets, by a look at each bit.
  pub contains_by_bits :
      (a b : ℕ)
      → all_below 64 (λ i. not (bit b i == 1) || (bit a i == 1)) ≡ true
      → contains a b ≡ true
  contains_by_bits a b h = (contains_iff a b).1 (λ i lt one.
      bit_of a b i one (all_below_sound 64 (λ j. not (bit b j == 1) || (bit a j == 1)) i h lt))

  pub not_contains_by_bit : (a b i : ℕ) → i < 64 → bit b i ≡ 1 → bit a i ≡ 0 → contains a b ≡ false
  not_contains_by_bit a b i lt one zero' = elim (Bool-cases (contains a b)) [
    | inl h ↦ absurd (omega (arith, (contains_iff a b).0 h i lt one))
    | inr h ↦ h
  ]
