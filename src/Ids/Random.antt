-- ===== src/Ids/Random.antt =====
-- Random ids have the length that is asked for.
use labrinth.Base.{
  ℕ, zero, suc, ◌-◌, ◌^◌, ◌≤◌, ◌<◌, ◌≡◌, refl, true, some, List, arith, all_below, all_below_sound,
  ltb, leb, ◌&&◌, ◌==◌, length, get_or,
}
use labrinth.Ids.{u64_mod, multiples, to_base62, random_base62_rng}
use labrinth.Ids.Rendering.{parse_base62-to_base62, length-to_base62}

-- The bounds that are drawn between: powers of 62, and 64 bits at the upper end.
bounds_table :
    all_below 11 (λ k.
      (get_or multiples k 0 == 62 ^ k)
      && ltb (get_or multiples k 0) (get_or multiples (suc k) 0)
      && leb (get_or multiples (suc k) 0) (62 ^ suc k)
      && ltb (get_or multiples (suc k) 0) u64_mod)
    ≡ true
unfolding multiples
bounds_table = refl

record Bounds (k : ℕ) : Type 0 where
  exact : get_or multiples k 0 ≡ 62 ^ k
  ordered : get_or multiples k 0 < get_or multiples (suc k) 0
  short : get_or multiples (suc k) 0 ≤ 62 ^ suc k
  fits : get_or multiples (suc k) 0 < u64_mod

multiples-Bounds : (k : ℕ) → k < 11 → Bounds k
multiples-Bounds k h =
    let checked =
      all_below_sound 11
        (λ k.
          (get_or multiples k 0 == 62 ^ k)
          && ltb (get_or multiples k 0) (get_or multiples (suc k) 0)
          && leb (get_or multiples (suc k) 0) (62 ^ suc k)
          && ltb (get_or multiples (suc k) 0) u64_mod)
        k bounds_table h in
    ground (arith, checked)

-- If the generator draws from its range, `random_base62_rng` gives for every length from 1 to 11 an
-- id of 64 bits that `to_base62` writes with exactly that many characters.
pub length-random_base62_rng :
    (gen_range : ℕ → ℕ → ℕ)
    (in_range : (low high : ℕ)
      → low < high
      → (low ≤ gen_range low high) × (gen_range low high < high))
    (n : ℕ)
    → 0 < n
    → n ≤ 11
    → (id : ℕ) × (s : List ℕ) × (random_base62_rng gen_range n ≡ some id)
      × (id < u64_mod)
      × (to_base62 id ≡ some s)
      × (length s ≡ n)
unfolding random_base62_rng
length-random_base62_rng gen_range in_range zero pos le = elim pos [ ]
length-random_base62_rng gen_range in_range (suc k) pos le =
    let b = multiples-Bounds k (omega arith) in
    let id = gen_range (get_or multiples k 0) (get_or multiples (suc k) 0) in
    let (lo, hi) = in_range (get_or multiples k 0) (get_or multiples (suc k) 0) b.ordered in
    let (s, run, back) = parse_base62-to_base62 id (omega (arith, b.fits)) in
    let before : suc k - 1 ≡ k = omega arith in
    (
      id,
      s,
      rw before (ground arith),
      omega (arith, b.fits),
      run,
      length-to_base62 k id s (omega (arith, b.exact)) (omega (arith, b.short)) run,
    )
