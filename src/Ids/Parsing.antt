-- ===== src/Ids/Parsing.antt =====
-- What `parse_base62` accepts.
use labrinth.Base.{
  ℕ, ◌+◌, ◌*◌, ◌≤◌, ◌<◌, ◌≡◌, refl, ◌↔◌, Option, none, some, List, [], ◌∷◌, arith, ok, Option-cases,
  Result-cases, inl, inr,
}
use labrinth.Ids.{next_digit, push_digit, parse_char, parse_loop, parse_base62, u64_mod}

-- The number that a text of base62 digits stands for, read from the left without any bound.
abbrev pub value_from : ℕ → List ℕ → Option ℕ
value_from acc [] = some acc
value_from acc (c ∷ s) = elim (next_digit c) [ none ↦ none | some d ↦ value_from (acc * 62 + d) s ]

pub value : List ℕ → Option ℕ
value s = value_from 0 s

pub value-eq : (s : List ℕ) → value s ≡ value_from 0 s
unfolding value
value-eq s = refl

value_from_grows : (acc n : ℕ) (s : List ℕ) → value_from acc s ≡ some n → acc ≤ n
value_from_grows acc n [] h = ground arith
value_from_grows acc n (c ∷ s) h = elim (Option-cases (next_digit c)) [
  | inl e ↦ absurd (ground arith)
  | inr (d, e) ↦ let ih = value_from_grows (acc * 62 + d) n s in ground (arith, ih)
]

parse_char_lem :
    (acc c d : ℕ)
    → next_digit c ≡ some d
    → acc * 62 + d < u64_mod
    → parse_char acc c ≡ ok (acc * 62 + d)
unfolding parse_char push_digit
parse_char_lem acc c d e h = ground arith

parse_char_inv :
    (acc c n : ℕ)
    → parse_char acc c ≡ ok n
    → (d : ℕ) × (next_digit c ≡ some d) × (n ≡ acc * 62 + d) × (n < u64_mod)
unfolding parse_char push_digit
parse_char_inv acc c n h = elim (Option-cases (next_digit c)) [
  | inl e ↦ absurd (ground arith)
  | inr (d, e) ↦ (d, e, ground arith, ground arith)
]

parse_loop-value :
    (acc n : ℕ) (s : List ℕ) → value_from acc s ≡ some n → n < u64_mod → parse_loop acc s ≡ ok n
unfolding parse_loop
parse_loop-value acc n [] h lt = ground arith
parse_loop-value acc n (c ∷ s) h lt = elim (Option-cases (next_digit c)) [
  | inl e ↦ absurd (ground arith)
  | inr (d, e) ↦
      let rest : value_from (acc * 62 + d) s ≡ some n = ground arith in
      ground (
        arith,
        value_from_grows (acc * 62 + d) n s rest,
        parse_char_lem acc c d e,
        parse_loop-value (acc * 62 + d) n s rest lt,
      )
]

value-parse_loop :
    (acc n : ℕ) (s : List ℕ)
    → acc < u64_mod
    → parse_loop acc s ≡ ok n
    → (value_from acc s ≡ some n) × (n < u64_mod)
unfolding parse_loop
value-parse_loop acc n [] lt h = ground arith
value-parse_loop acc n (c ∷ s) lt h = elim (Result-cases (parse_char acc c)) [
  | inl (m, e) ↦
      let (d, digit, same, small) = parse_char_inv acc c m e in
      let rest : parse_loop m s ≡ ok n = ground arith in
      ground (arith, value-parse_loop m n s small rest)
  | inr (x, e) ↦ absurd (ground arith)
]

-- `parse_base62` returns `n` exactly if every character is a base62 digit and the digits, read as
-- a number without any bound, make `n`, which fits into 64 bits.
pub parse_base62-eq-ok_iff :
    (s : List ℕ) (n : ℕ) → (parse_base62 s ≡ ok n) ↔ ((value s ≡ some n) × (n < u64_mod))
unfolding parse_base62 value
parse_base62-eq-ok_iff s n =
    (value-parse_loop 0 n s (omega arith), λ (h, lt). parse_loop-value 0 n s h lt)
