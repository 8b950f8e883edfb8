-- ===== src/Examples/Ids.antt =====
-- Base62 ids at concrete inputs.
use labrinth.Base.{ℕ, ◌≤◌, ◌<◌, ◌≡◌, ◌↔◌, refl, some, List, arith, ok, err, length}
use labrinth.Base.{◌⊎◌, ◌==◌, ◌||◌, false, true}
use labrinth.Ids.{codes, u64_mod, overflow, invalid_base62, to_base62, parse_base62}
use labrinth.Ids.Parsing.{value, parse_base62-eq-ok_iff}
use labrinth.Ids.Rendering.{parse_base62-to_base62, to_base62-parse_base62, length-to_base62}
use labrinth.Ids.Generate.{random_id, draw, generate_id, generate_id_cases}

too_long : parse_base62 (codes "zzzzzzzzzzz") ≡ err overflow
unfolding parse_base62
too_long = refl

no_digit : parse_base62 (codes "ab-c") ≡ err (invalid_base62 b'-')
unfolding parse_base62
no_digit = refl

parse_base62-to_base62_example :
    (s : List ℕ) × (to_base62 3843 ≡ some s) × (parse_base62 s ≡ ok 3843)
parse_base62-to_base62_example = parse_base62-to_base62 3843 (omega arith)

zz : parse_base62 (codes "zz") ≡ ok 3843
unfolding parse_base62
zz = refl

to_base62-parse_base62_example : to_base62 3843 ≡ some (codes "zz")
to_base62-parse_base62_example = to_base62-parse_base62 (codes "zz") 3843 (omega arith) zz

parse_base62-eq-ok_iff_example :
    (parse_base62 (codes "zz") ≡ ok 3843) ↔ ((value (codes "zz") ≡ some 3843) × (3843 < u64_mod))
parse_base62-eq-ok_iff_example = parse_base62-eq-ok_iff (codes "zz") 3843

two_letters : length (codes "zz") ≡ 2
two_letters =
    length-to_base62 1 3843 (codes "zz") (omega arith) (omega arith) to_base62-parse_base62_example

-- The smallest number that may be drawn.
abbrev lowest : ℕ → ℕ → ℕ
lowest low high = low

lowest_in_range : (low high : ℕ) → low < high → (low ≤ lowest low high) × (lowest low high < high)
lowest_in_range low high h = omega arith

generate_id_cases_example :
    ((id : ℕ) × (generate_id (λ id. id == 1) (λ s. false) (λ i. lowest) 8 ≡ ok id)
      × ((id == 1) ≡ false)
      × (false ≡ false))
    ⊎ ((generate_id (λ id. id == 1) (λ s. false) (λ i. lowest) 8 ≡ err random_id)
        × ((j : ℕ)
            → j < 21
            → (id : ℕ) × (draw (λ id. id == 1) (λ s. false) (λ i. lowest) 8 j ≡ some id)
              × (((id == 1) || false) ≡ true)))
generate_id_cases_example =
    generate_id_cases (λ id. id == 1) (λ s. false) (λ i. lowest) 8 (omega arith) (omega arith)
