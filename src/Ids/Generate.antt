-- ===== src/Ids/Generate.antt =====
-- The generators of free ids (`generate_ids!` of src/database/models/ids.rs). Whether a row has an
-- id, what the package censor refuses, and the random generator of each draw are arguments.
use labrinth.Base.{
  ℕ, zero, suc, ◌+◌, ◌≤◌, ◌<◌, ◌≡◌, ◌⊎◌, inl, inr, refl, ap, ◌∙◌, Bool, true, false, ◌||◌, Option,
  none, some, List, [], arith, if◌then◌else◌, Result, ok, err, Bool-cases, Option-cases,
}
use labrinth.Ids.{to_base62, random_base62_rng}

pub data GenerateError : Type 0 where
  -- the failed assertion of the draw, and `DatabaseError::RandomId`
  assertion random_id : GenerateError

abbrev pub id_retry_count : ℕ
id_retry_count = 20

-- The text of an id; `to_base62` has one for every number.
abbrev pub text_of : Option (List ℕ) → List ℕ
text_of none = []
text_of (some s) = s

module _ (exists : ℕ → Bool) (censored : List ℕ → Bool) (gen_range : ℕ → ℕ → ℕ → ℕ)
    (length : ℕ) where
  -- The draw with a number.
  abbrev pub draw : ℕ → Option ℕ
  draw i = random_base62_rng (gen_range i) length

  pub refused : ℕ → Bool
  refused id = exists id || censored (text_of (to_base62 id))

  -- The loop, with the number of rounds that are left before `retry_count` exceeds
  -- `ID_RETRY_COUNT`; the draw after the last round is not looked at.
  pub generate_loop : ℕ → ℕ → Result GenerateError ℕ
  unfolding refused
  generate_loop zero i = err random_id
  generate_loop (suc rounds) i =
      let rest = generate_loop rounds (suc i) in
      elim (draw i) [ none ↦ err assertion | some id ↦ if refused id then rest else ok id ]

  unfoldable pub generate_id : Result GenerateError ℕ
  unfolding generate_loop
  generate_id = generate_loop (suc id_retry_count) 0

  drawn : (i : ℕ) → 0 < length → length ≤ 11 → (id : ℕ) × (draw i ≡ some id)
  unfolding random_base62_rng
  drawn i low high = elim (Option-cases (draw i)) [
    | inl e ↦ absurd (ground arith)
    | inr found ↦ found
  ]

  all_later :
      (rounds i id : ℕ)
      → draw i ≡ some id
      → refused id ≡ true
      → ((j : ℕ) → j < rounds → (x : ℕ) × (draw (suc i + j) ≡ some x) × (refused x ≡ true))
      → (j : ℕ) → j < suc rounds
      → (x : ℕ) × (draw (i + j) ≡ some x) × (refused x ≡ true)
  all_later rounds i id e taken later zero lt =
      let same : i + 0 ≡ i = omega arith in (id, ap draw same ∙ e, taken)
  all_later rounds i id e taken later (suc j) lt =
      let (x, f, t) = later j (omega arith) in
      let same : i + suc j ≡ suc i + j = omega arith in (x, ap draw same ∙ f, t)

  loop_cases :
      (rounds i : ℕ)
      → 0 < length
      → length ≤ 11
      → ((id : ℕ) × (generate_loop rounds i ≡ ok id) × (refused id ≡ false))
        ⊎ ((generate_loop rounds i ≡ err random_id)
            × ((j : ℕ) → j < rounds → (id : ℕ) × (draw (i + j) ≡ some id) × (refused id ≡ true)))
  unfolding generate_loop
  loop_cases zero i low high = inr (refl, λ j lt. absurd (omega arith))
  loop_cases (suc rounds) i low high =
      let (id, e) = drawn i low high in
      elim (Bool-cases (refused id)) [
        | inr free ↦ inl (id, ground arith, free)
        | inl taken ↦ elim (loop_cases rounds (suc i) low high) [
          | inl (found, run, free) ↦ inl (found, ground arith, free)
          | inr (run, all_taken) ↦ inr (ground arith, all_later rounds i id e taken all_taken)
        ]
      ]

  -- For the lengths that may be asked for, the generator returns an id that no row has and that the
  -- censor lets pass, or it fails with `RandomId` after 21 draws each of which was refused.
  pub generate_id_cases :
      0 < length
      → length ≤ 11
      → ((id : ℕ) × (generate_id ≡ ok id)
          × (exists id ≡ false)
          × (censored (text_of (to_base62 id)) ≡ false))
        ⊎ ((generate_id ≡ err random_id)
            × ((j : ℕ)
                → j < 21
                → (id : ℕ) × (draw j ≡ some id)
                  × ((exists id || censored (text_of (to_base62 id))) ≡ true)))
  unfolding generate_id refused
  generate_id_cases low high = elim (loop_cases (suc id_retry_count) 0 low high) [
    | inl (id, run, free) ↦ inl (id, run, ground arith, ground arith)
    | inr (run, all_taken) ↦ inr (
      run,
      λ j lt.
          let (x, e, t) = all_taken j lt in
          let same : j ≡ 0 + j = omega arith in (x, ap draw same ∙ e, t),
    )
  ]
