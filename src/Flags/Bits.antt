-- ===== src/Flags/Bits.antt =====
-- The interface over plain numbers, bit by bit, and the laws of sets of flags.
use labrinth.Base.{
  ℕ, zero, suc, ◌+◌, ◌*◌, ◌/◌, ◌%◌, ◌≤◌, ◌<◌, ◌≡◌, ◌↔◌, ◌⊎◌, refl, Bool, true, ◌&&◌, arith, leb,
  &&-eq-true,
}
use labrinth.Flags.{bit, Bitflags}
use Prim.Native.Nat.{max}

unfoldable pub bits_contain : ℕ → ℕ → ℕ → Bool
bits_contain zero a b = true
bits_contain (suc n) a b = leb (b % 2) (a % 2) && bits_contain n (a / 2) (b / 2)

unfoldable pub bits_union : ℕ → ℕ → ℕ → ℕ
bits_union zero a b = 0
bits_union (suc n) a b = max (a % 2) (b % 2) + 2 * bits_union n (a / 2) (b / 2)

pub bits_contain_sound :
    (n a b i : ℕ) → bits_contain n a b ≡ true → i < n → bit b i ≡ 1 → bit a i ≡ 1
unfolding bits_contain
bits_contain_sound zero a b i h lt one = absurd (omega arith)
bits_contain_sound (suc n) a b zero h lt one =
    let (low, rest) = &&-eq-true _ (bits_contain n (a / 2) (b / 2)) h in ground arith
bits_contain_sound (suc n) a b (suc i) h lt one =
    let (low, rest) = &&-eq-true _ (bits_contain n (a / 2) (b / 2)) h in
    bits_contain_sound n (a / 2) (b / 2) i rest (omega arith) one

pub bits_contain_complete :
    (n a b : ℕ) → ((i : ℕ) → i < n → bit b i ≡ 1 → bit a i ≡ 1) → bits_contain n a b ≡ true
unfolding bits_contain
bits_contain_complete zero a b h = refl
bits_contain_complete (suc n) a b h =
    let rest = bits_contain_complete n (a / 2) (b / 2) (λ i lt one. h (suc i) (omega arith) one) in
    ground (arith, h 0)

pub union_bit :
    (n a b i : ℕ) → i < n → (bit (bits_union n a b) i ≡ 1) ↔ ((bit a i ≡ 1) ⊎ (bit b i ≡ 1))
unfolding bits_union
union_bit zero a b i h = absurd (omega arith)
union_bit (suc n) a b zero h = ground arith
union_bit (suc n) a b (suc i) h =
    rw (half (max (a % 2) (b % 2)) (bits_union n (a / 2) (b / 2)) (omega arith))
      (union_bit n (a / 2) (b / 2) i (omega arith))
  where
    half : (m r : ℕ) → m ≤ 1 → (m + 2 * r) / 2 ≡ r
    half m r h = omega arith

abbrev pub bits : Bitflags
bits = record {
  contains = bits_contain 64;
  union = bits_union 64;
  contains_iff = λ a b. (λ h i. bits_contain_sound 64 a b i h, bits_contain_complete 64 a b);
  union_iff = union_bit 64;
}
