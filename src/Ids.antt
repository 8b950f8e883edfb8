-- ===== src/Ids.antt =====
-- The base62 ids of the API (src/models/ids.rs).
-- A `char` is its code point, a `str` or `String` the list of its code points, a `u64` a number.
pub mod Generate
pub mod Parsing
pub mod Rendering
pub mod Random
use Prim.Native.Char.{code}
use Prim.Native.String
use labrinth.Base.{
  ℕ, zero, suc, ◌+◌, ◌-◌, ◌*◌, ◌/◌, ◌%◌, ◌^◌, String, ◌&&◌, Bool, Option, none, some, List, [], ◌∷◌,
  Result, ok, err, ltb, leb, if◌then◌else◌, get_or,
}

abbrev pub codes : String → List ℕ
codes String.[] = []
codes (String.◌∷◌ letter rest) = code letter ∷ codes rest

abbrev pub u64_mod : ℕ
u64_mod = 2 ^ 64

abbrev pub base62_chars : List ℕ
base62_chars = codes "0123456789ABCDEFGHIJKLMNOPQRSTUVWXYZabcdefghijklmnopqrstuvwxyz"

-- The array index; it is always below 62 at its only use.
pub base62_char : ℕ → ℕ
base62_char d = get_or base62_chars d 0

pub data DecodingError : Type 0 where
  invalid_base62 : ℕ → DecodingError
  overflow : DecodingError

-- The `while` loop with fuel, `none` where that runs out. Each round inserts at the front. The
-- capacity that the source computes by a logarithm reserves memory and changes no output.
pub to_base62_loop : ℕ → ℕ → List ℕ → Option (List ℕ)
to_base62_loop zero num output = none
to_base62_loop (suc fuel) num output =
    let rest = to_base62_loop fuel (num / 62) (base62_char (num % 62) ∷ output) in
    if ltb 0 num then rest else some output

unfoldable pub to_base62 : ℕ → Option (List ℕ)
unfolding to_base62_loop base62_char
to_base62 num = to_base62_loop (suc num) num []

abbrev between : ℕ → ℕ → ℕ → Bool
between lo hi c = leb lo c && leb c hi

-- The value of a character, `none` where the source returns `InvalidBase62`.
pub next_digit : ℕ → Option ℕ
next_digit c =
    if between b'0' b'9' c
    then some (c - b'0')
    else if between b'A' b'Z' c
    then some (10 + (c - b'A'))
    else if between b'a' b'z' c
    then some (36 + (c - b'a'))
    else none

abbrev pub checked : ℕ → Option ℕ
checked n = if ltb n u64_mod then some n else none

-- `num.checked_mul(62).and_then(|n| n.checked_add(next_digit))`
pub push_digit : ℕ → ℕ → Option ℕ
push_digit num digit = elim (checked (num * 62)) [ none ↦ none | some n ↦ checked (n + digit) ]

-- One round of the loop of `parse_base62`.
pub parse_char : ℕ → ℕ → Result DecodingError ℕ
parse_char num c = elim (next_digit c) [
  | none ↦ err (invalid_base62 c)
  | some d ↦ elim (push_digit num d) [ none ↦ err overflow | some n ↦ ok n ]
]

pub parse_loop : ℕ → List ℕ → Result DecodingError ℕ
parse_loop num [] = ok num
parse_loop num (c ∷ s) = elim (parse_char num c) [ ok n ↦ parse_loop n s | err e ↦ err e ]

unfoldable pub parse_base62 : List ℕ → Result DecodingError ℕ
unfolding parse_loop parse_char push_digit next_digit
parse_base62 s = parse_loop 0 s

-- The array `MULTIPLES`, by its index.
unfoldable pub multiples : List ℕ
multiples =
    1
    ∷ 62
    ∷ 62 ^ 2
    ∷ 62 ^ 3
    ∷ 62 ^ 4
    ∷ 62 ^ 5
    ∷ 62 ^ 6
    ∷ 62 ^ 7
    ∷ 62 ^ 8
    ∷ 62 ^ 9
    ∷ 62 ^ 10
    ∷ (2 ^ 64 - 1)
    ∷ []

-- `none` is the failed assertion. `gen_range` is the random generator's.
unfoldable pub random_base62_rng : (ℕ → ℕ → ℕ) → ℕ → Option ℕ
random_base62_rng gen_range n =
    if ltb 0 n && leb n 11
    then some (gen_range (get_or multiples (n - 1) 0) (get_or multiples n 0))
    else none
