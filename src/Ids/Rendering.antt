-- ===== src/Ids/Rendering.antt =====
-- What `to_base62` writes, and its round trips with `parse_base62`.
use labrinth.Base.{
  ℕ, zero, suc, ◌+◌, ◌-◌, ◌*◌, ◌/◌, ◌%◌, ◌^◌, ◌≤◌, ◌<◌, ◌≡◌, refl, ◌≢◌, Bool, true, none, some,
  List, [], ◌∷◌, ◌++◌, arith, ok, all_below, all_below_sound, ◌==◌, Option-cases, inl, inr, ap, sym,
  ◌∙◌, length, lt→ltb,
}
use mathlib.Core.List.{append-nil}
use native.Mathlib.Nat.{pow-suc}
use labrinth.Ids.{base62_char, to_base62_loop, to_base62, next_digit, parse_base62, u64_mod}
use labrinth.Ids.Parsing.{value_from, value-eq, parse_base62-eq-ok_iff}

digit_table :
    all_below 62 (λ d. elim (next_digit (base62_char d)) [ none ↦ true | some e ↦ e == d ]) ≡ true
unfolding next_digit base62_char
digit_table = refl

present_table :
    all_below 62 (λ d. elim (next_digit (base62_char d)) [ none ↦ Bool.false | some e ↦ true ])
    ≡ true
unfolding next_digit base62_char
present_table = refl

next_digit-base62_char : (d : ℕ) → d < 62 → next_digit (base62_char d) ≡ some d
next_digit-base62_char d h = ground (
  arith,
  all_below_sound 62 (λ d. elim (next_digit (base62_char d)) [ none ↦ true | some e ↦ e == d ]) d
      digit_table h,
  all_below_sound 62 (λ d. elim (next_digit (base62_char d)) [ none ↦ Bool.false | some e ↦ true ])
      d present_table h,
)

next_digit-lt : (c d : ℕ) → next_digit c ≡ some d → (d < 62) × (c < 123)
unfolding next_digit
next_digit-lt c d h = ground arith

char_table :
    all_below 123 (λ c. elim (next_digit c) [ none ↦ true | some d ↦ base62_char d == c ]) ≡ true
unfolding next_digit base62_char
char_table = refl

base62_char-next_digit : (c d : ℕ) → next_digit c ≡ some d → base62_char d ≡ c
base62_char-next_digit c d e = ground (
  arith,
  next_digit-lt c d e,
  all_below_sound 123 (λ c. elim (next_digit c) [ none ↦ true | some d ↦ base62_char d == c ]) c
      char_table,
)

split62 : (n : ℕ) → n / 62 * 62 + n % 62 ≡ n
split62 n = omega arith

-- The loop writes, before what is there, a text that stands for the number.
loop_value :
    (fuel num : ℕ) (out : List ℕ)
    → num < fuel
    → (s : List ℕ) × (to_base62_loop fuel num out ≡ some s) × (value_from 0 s ≡ value_from num out)
unfolding to_base62_loop
loop_value zero num out h = elim h [ ]
loop_value (suc fuel) zero out h = (out, refl, refl)
loop_value (suc fuel) (suc k) out h =
    let d = suc k % 62 in
    let (s, run, same) = loop_value fuel (suc k / 62) (base62_char d ∷ out) (omega arith) in
    (
      s,
      ground arith,
      ground (
        arith,
        next_digit-base62_char d (omega arith),
        ap (λ m. value_from m out) (split62 (suc k)),
      ),
    )

-- An id of 64 bits is written by `to_base62`, and `parse_base62` reads it back.
pub parse_base62-to_base62 :
    (num : ℕ) → num < u64_mod → (s : List ℕ) × (to_base62 num ≡ some s) × (parse_base62 s ≡ ok num)
unfolding to_base62
parse_base62-to_base62 num h =
    let (s, run, same) = loop_value (suc num) num [] (omega arith) in
    (s, run, (parse_base62-eq-ok_iff s num).1 (value-eq s ∙ same, h))

-- A text with no leading "0", the one that `to_base62` writes for its number.
abbrev pub NoLeadingZero : List ℕ → Type 0
NoLeadingZero [] = Unit
NoLeadingZero (c ∷ s) = c ≢ b'0'

loop_digit :
    (acc c d : ℕ) (out : List ℕ) (fuel : ℕ)
    → 0 < acc * 62 + d
    → acc * 62 + d < fuel
    → next_digit c ≡ some d
    → to_base62_loop fuel (acc * 62 + d) out ≡ to_base62_loop (fuel - 1) acc (c ∷ out)
unfolding to_base62_loop
loop_digit acc c d out zero pos h e = elim h [ ]
loop_digit acc c d out (suc fuel) pos h e =
    let small = (next_digit-lt c d e).0 in
    let quotient : (acc * 62 + d) / 62 ≡ acc = omega arith in
    let digit : (acc * 62 + d) % 62 ≡ d = omega arith in
    let less : suc fuel - 1 ≡ fuel = omega arith in
    rw (to_base62_loop, lt→ltb 0 _ pos, quotient, digit, less, base62_char-next_digit c d e)

-- Undoing digits: a run from the whole number passes through the number before them.
loop_back :
    (acc n : ℕ) (s out : List ℕ) (fuel : ℕ)
    → 0 < acc
    → value_from acc s ≡ some n
    → n < fuel
    → (rest : ℕ) × (acc < rest) × (to_base62_loop fuel n out ≡ to_base62_loop rest acc (s ++ out))
loop_back acc n [] out fuel pos v h = (fuel, ground arith, ground arith)
loop_back acc n (c ∷ s) out fuel pos v h = elim (Option-cases (next_digit c)) [
  | inl e ↦ absurd (ground arith)
  | inr (d, e) ↦
      let (rest, more, run) =
        loop_back (acc * 62 + d) n s out fuel (omega arith) (ground arith) h in
      (rest - 1, omega arith, run ∙ loop_digit acc c d (s ++ out) rest (omega arith) more e)
]

zero_digit : (c : ℕ) → next_digit c ≡ some 0 → c ≡ b'0'
unfolding next_digit
zero_digit c e = ground arith

loop_end : (fuel : ℕ) (out : List ℕ) → 0 < fuel → to_base62_loop fuel 0 out ≡ some out
unfolding to_base62_loop
loop_end zero out h = elim h [ ]
loop_end (suc fuel) out h = refl

-- Parsing and then printing gives the text back, if it has no leading "0".
pub to_base62-parse_base62 :
    (s : List ℕ) (num : ℕ) → NoLeadingZero s → parse_base62 s ≡ ok num → to_base62 num ≡ some s
unfolding to_base62
to_base62-parse_base62 [] num no_zero h =
    let v = (parse_base62-eq-ok_iff [] num).0 h in
    let is_zero : 0 ≡ num = ground (arith, value-eq []) in
    rw (← is_zero) (loop_end 1 [] (omega arith))
to_base62-parse_base62 (c ∷ s) num no_zero h =
    let (v, lt) = (parse_base62-eq-ok_iff (c ∷ s) num).0 h in
    elim (Option-cases (next_digit c)) [
      | inl e ↦ absurd (ground (arith, value-eq (c ∷ s)))
      | inr (d, e) ↦
          let pos : 0 < 0 * 62 + d = ground (arith, zero_digit c) in
          let (rest, more, run) =
            loop_back (0 * 62 + d) num s [] (suc num) pos (ground (arith, value-eq (c ∷ s)))
              (omega arith) in
          run
          ∙ loop_digit 0 c d (s ++ []) rest pos more e
          ∙ loop_end (rest - 1) _ (omega arith)
          ∙ ap (λ t. some (c ∷ t)) (append-nil s)
    ]

quotient_zero : (num : ℕ) → num < 62 ^ 1 → 0 ≡ num / 62
quotient_zero num h = omega arith

pow_pos : (k : ℕ) → 0 < 62 ^ k
pow_pos zero = omega arith
pow_pos (suc k) = omega (arith, pow-suc 62 k, pow_pos k)

loop_more :
    (fuel num : ℕ) (out : List ℕ)
    → 0 < num
    → to_base62_loop (suc fuel) num out
      ≡ to_base62_loop fuel (num / 62) (base62_char (num % 62) ∷ out)
unfolding to_base62_loop
loop_more fuel num out h = rw (lt→ltb 0 num h)

last_length :
    (fuel : ℕ) (out s : List ℕ) → to_base62_loop fuel 0 out ≡ some s → length s ≡ length out
unfolding to_base62_loop
last_length zero out s h = absurd (ground arith)
last_length (suc fuel) out s h = ground arith

-- The number of rounds: one for each power of 62 up to the number.
loop_length :
    (k fuel num : ℕ) (out s : List ℕ)
    → 62 ^ k ≤ num
    → num < 62 ^ suc k
    → to_base62_loop fuel num out ≡ some s
    → length s ≡ suc k + length out
unfolding to_base62_loop
loop_length k zero num out s lo hi h = absurd (ground arith)
loop_length zero (suc fuel) num out s lo hi h =
    let next : to_base62_loop fuel 0 (base62_char (num % 62) ∷ out) ≡ some s =
      ap (λ m. to_base62_loop fuel m (base62_char (num % 62) ∷ out)) (quotient_zero num hi)
      ∙ sym (loop_more fuel num out lo)
      ∙ h in
    omega (arith, last_length fuel (base62_char (num % 62) ∷ out) s next)
loop_length (suc k) (suc fuel) num out s lo hi h =
    let next = sym (loop_more fuel num out (omega (arith, pow_pos k, pow-suc 62 k))) ∙ h in
    omega (
      arith,
      loop_length k fuel (num / 62) (base62_char (num % 62) ∷ out) s (omega (arith, pow-suc 62 k))
          (omega (arith, pow-suc 62 (suc k))) next,
    )

-- A number between two powers of 62 is written with as many characters as the upper power says.
pub length-to_base62 :
    (k num : ℕ) (s : List ℕ)
    → 62 ^ k ≤ num
    → num < 62 ^ suc k
    → to_base62 num ≡ some s
    → length s ≡ suc k
unfolding to_base62
length-to_base62 k num s lo hi h = omega (arith, loop_length k (suc num) num [] s lo hi h)
