-- ===== src/Flags.antt =====
-- The interface of the package `bitflags`, of which the source has the flags and not the code:
-- sets of flags are `u64` numbers, and the operations have the laws that the package documents.
pub mod Bits
pub mod Laws
use labrinth.Base.{
  ℕ, zero, suc, ◌+◌, ◌*◌, ◌/◌, ◌%◌, ◌<◌, ◌≡◌, ◌↔◌, ◌⊎◌, Bool, true, Option, none, some,
  if◌then◌else◌,
}

-- Bit `i` of a number, 0 or 1.
abbrev pub bit : ℕ → ℕ → ℕ
bit n zero = n % 2
bit n (suc i) = bit (n / 2) i

-- Every flag of `b` is one of `a`.
abbrev pub IsSubset : ℕ → ℕ → Type 0
IsSubset b a = (i : ℕ) → i < 64 → bit b i ≡ 1 → bit a i ≡ 1

pub record Bitflags : Type 0 where
  -- `a.contains(b)`
  pub contains : ℕ → ℕ → Bool
  -- `a | b`
  pub union : ℕ → ℕ → ℕ
  pub contains_iff : (a b : ℕ) → (contains a b ≡ true) ↔ IsSubset b a
  pub union_iff : (a b i : ℕ) → i < 64 → (bit (union a b) i ≡ 1) ↔ ((bit a i ≡ 1) ⊎ (bit b i ≡ 1))

-- `from_bits`: no flag where a bit is set that no flag has.
unfoldable pub from_bits : Bitflags → ℕ → ℕ → Option ℕ
from_bits flags all bits = if flags.contains all bits then some bits else none
