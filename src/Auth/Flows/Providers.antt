-- ===== src/Auth/Flows/Providers.antt =====
-- `AuthProvider` of src/auth/flows.rs: the accounts of other sites that a user has linked.
use labrinth.Base.{ℕ, String, Bool, false, Option, none, some, List, find, ◌==◌, Result, ok, err}
use labrinth.Users.{AuthProvider, github, discord, microsoft, gitlab, google, steam, DbUser}
use labrinth.Api.{AuthenticationError, invalid_credentials}
use labrinth.Auth.Flows.Accounts.{update, id_of, same_text}

unfoldable pub as_str : AuthProvider → String
as_str github = "GitHub"
as_str discord = "Discord"
as_str microsoft = "Microsoft"
as_str gitlab = "GitLab"
as_str google = "Google"
as_str steam = "Steam"

abbrev same_number : Option ℕ → ℕ → Bool
same_number none n = false
same_number (some m) n = m == n

-- `id.and_then(..)`
abbrev pub and_then : {A B : Type 0} → Option A → (A → Option B) → Option B
and_then none f = none
and_then (some a) f = f a

-- The test of the queries of `get_user_id`, `none` where the id of the account is no number.
unfoldable pub account_test :
    {Decimal : Type 0}
    → (String → Option ℕ)
    → AuthProvider
    → String
    → Option (DbUser Decimal → Bool)
account_test parse_i64 github id =
    and_then (parse_i64 id) (λ n. some (λ u. same_number u.github_id n))
account_test parse_i64 discord id =
    and_then (parse_i64 id) (λ n. some (λ u. same_number u.discord_id n))
account_test parse_i64 microsoft id = some (λ u. same_text u.microsoft_id id)
account_test parse_i64 gitlab id =
    and_then (parse_i64 id) (λ n. some (λ u. same_number u.gitlab_id n))
account_test parse_i64 google id = some (λ u. same_text u.google_id id)
account_test parse_i64 steam id =
    and_then (parse_i64 id) (λ n. some (λ u. same_number u.steam_id n))

unfoldable pub get_user_id :
    {Decimal : Type 0}
    → (String → Option ℕ)
    → AuthProvider
    → String
    → List (DbUser Decimal)
    → Result AuthenticationError (Option ℕ)
unfolding account_test
get_user_id parse_i64 p id users = elim (account_test parse_i64 p id) [
  | none ↦ err invalid_credentials
  | some test ↦ ok (id_of (find test users))
]

-- The column that `update_user_id` sets.
unfoldable pub set_account :
    {Decimal : Type 0}
    → (String → Option ℕ)
    → AuthProvider
    → Option String
    → DbUser Decimal
    → DbUser Decimal
set_account parse_i64 github id u = record u { github_id = and_then id parse_i64 }
set_account parse_i64 discord id u = record u { discord_id = and_then id parse_i64 }
set_account parse_i64 microsoft id u = record u { microsoft_id = id }
set_account parse_i64 gitlab id u = record u { gitlab_id = and_then id parse_i64 }
set_account parse_i64 google id u = record u { google_id = id }
set_account parse_i64 steam id u = record u { steam_id = and_then id parse_i64 }

unfoldable pub update_user_id :
    {Decimal : Type 0}
    → (String → Option ℕ)
    → AuthProvider
    → ℕ
    → Option String
    → List (DbUser Decimal)
    → List (DbUser Decimal)
unfolding set_account
update_user_id parse_i64 p user_id id users = update (set_account parse_i64 p id) user_id users
