-- ===== src/Auth/Flows/Names.antt =====
-- The loop over names in `TempUser::create_account` of src/auth/flows.rs.
use labrinth.Base.{
  ℕ, zero, suc, ◌+◌, ◌≤◌, ◌<◌, String, ◌≡◌, sym, ap, ◌∙◌, Bool, true, false, Option, some, List,
  arith, Result, Bool-cases, inl, inr,
}
use labrinth.Users.{DbUser}
use labrinth.Users.Find.{get_user}
use labrinth.Api.{AuthenticationError}
use labrinth.Teams.Routes.{is_some}
use labrinth.Auth.Flows.{Env}
use labrinth.Auth.Flows.Creation.{test_username, free_username}

module _ {Decimal : Type 0} (env : Env Decimal) (to_string : ℕ → String)
    (upload : ℕ → String → Result AuthenticationError (Option String)) where
  -- A user has the name with a number.
  abbrev pub is_taken : List (DbUser Decimal) → String → ℕ → Bool
  is_taken users name i =
      is_some (get_user env.to_lowercase (test_username env to_string upload name i) users)

  taken_before :
      (start j i : ℕ) (users : List (DbUser Decimal)) (name : String)
      → is_taken users name start ≡ true
      → ((i : ℕ) → i < j → is_taken users name ((start + 1) + i) ≡ true)
      → i < suc j
      → is_taken users name (start + i) ≡ true
  taken_before start j zero users name taken before lt =
      let same : start + 0 ≡ start = omega arith in rw same taken
  taken_before start j (suc i) users name taken before lt =
      let same : start + suc i ≡ (start + 1) + i = omega arith in rw same (before i (omega arith))

  -- If one of the names that are tried is free, then the search ends with the first free one: its
  -- number is not above, and the names before it are taken.
  pub free_username_first :
      (rounds : ℕ) (name : String) (start k : ℕ) (users : List (DbUser Decimal))
      → k < rounds
      → is_taken users name (start + k) ≡ false
      → (j : ℕ) × (j ≤ k)
        × (free_username env to_string upload rounds name start users
            ≡ some (test_username env to_string upload name (start + j)))
        × (is_taken users name (start + j) ≡ false)
        × ((i : ℕ) → i < j → is_taken users name (start + i) ≡ true)
  unfolding free_username
  free_username_first zero name start k users less free = absurd (omega arith)
  free_username_first (suc rounds) name start zero users less free =
      let same : start + 0 ≡ start = omega arith in
      let now : is_taken users name start ≡ false = ap (is_taken users name) (sym same) ∙ free in
      (0, omega arith, rw same (ground arith), free, λ i lt. absurd (omega arith))
  free_username_first (suc rounds) name start (suc k) users less free =
      let same : (start + 1) + k ≡ start + suc k = omega arith in
      let (j, le, run, now, before) =
        free_username_first rounds name (start + 1) k users (omega arith)
          (ap (is_taken users name) same ∙ free) in
      let shift : start + suc j ≡ (start + 1) + j = omega arith in
      let nil : start + 0 ≡ start = omega arith in
      elim (Bool-cases (is_taken users name start)) [
        | inr now' ↦ (
          0,
          omega arith,
          rw nil (ground arith),
          ap (is_taken users name) nil ∙ now',
          λ i lt. absurd (omega arith),
        )
        | inl taken ↦ (
          suc j,
          omega arith,
          rw shift (ground arith),
          ap (is_taken users name) shift ∙ now,
          λ i lt. taken_before start j i users name taken before lt,
        )
      ]
