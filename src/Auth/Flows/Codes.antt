-- ===== src/Auth/Flows/Codes.antt =====
-- `validate_2fa_code` of src/auth/flows.rs, and the backup codes that `finish_2fa_flow` draws.
use labrinth.Base.{
  ℕ, zero, suc, String, Bool, true, false, ◌&&◌, Option, none, some, List, [], ◌∷◌, ◌++◌, any, ◌==◌,
  str_eq, if◌then◌else◌, Result, ok, err,
}
use labrinth.Ids.{DecodingError, codes, parse_base62, to_base62, random_base62_rng}
use labrinth.Ids.Generate.{text_of}
use labrinth.Api.{AuthenticationError, invalid_credentials}
use labrinth.Auth.Flows.Accounts.{same_codes, get_backup_codes, delete_code}

-- `parse_base62(&input).unwrap_or_default()`
abbrev pub code_of : Result DecodingError ℕ → ℕ
code_of (ok n) = n
code_of (err e) = 0

abbrev pub is_backup : String → ℕ → List (ℕ × ℕ) → Bool
is_backup input user rows = any (same_codes (codes input)) (get_backup_codes user rows)

abbrev compare_code :
    Option String
    → String
    → Bool
    → ℕ
    → List (ℕ × ℕ)
    → Result AuthenticationError (Bool × List (ℕ × ℕ))
compare_code none input allow_backup user rows = err invalid_credentials
compare_code (some token) input allow_backup user rows =
    if str_eq input token
    then ok (true, rows)
    else if allow_backup
    then (if is_backup input user rows
        then ok (true, delete_code user (code_of (parse_base62 (codes input))) rows)
        else ok (false, rows))
    else err invalid_credentials

-- The answer, with the backup codes that are left.
unfoldable pub validate_2fa_code :
    (String → Option String)
    → String
    → String
    → Bool
    → ℕ
    → List (ℕ × ℕ)
    → Result AuthenticationError (Bool × List (ℕ × ℕ))
unfolding get_backup_codes
validate_2fa_code generate_current input secret allow_backup user rows =
    compare_code (generate_current secret) input allow_backup user rows

abbrev pub with_text :
    ℕ → Option (List (List ℕ) × List (ℕ × ℕ)) → Option (List (List ℕ) × List (ℕ × ℕ))
with_text val none = none
with_text val (some (texts, rows)) = some (text_of (to_base62 val) ∷ texts, rows)

-- The loop of `finish_2fa_flow`: each round draws a code, stores it and keeps its text. `none` is
-- a code that the user has already, which the primary key refuses.
unfoldable pub new_codes :
    (ℕ → ℕ → ℕ → ℕ) → ℕ → ℕ → ℕ → List (ℕ × ℕ) → Option (List (List ℕ) × List (ℕ × ℕ))
unfolding random_base62_rng
new_codes gen_range zero i user rows = some ([], rows)
new_codes gen_range (suc rounds) i user rows = elim (random_base62_rng (gen_range i) 11) [
  | none ↦ none
  | some val ↦
      let rest = new_codes gen_range rounds (suc i) user (rows ++ (user, val) ∷ []) in
      if any (λ row. row.0 == user && row.1 == val) rows then none else with_text val rest
]
