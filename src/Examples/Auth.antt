-- ===== src/Examples/Auth.antt =====
-- The authentication of requests at concrete inputs.
use labrinth.Base.{
  ℕ, ◌≡◌, ◌⊎◌, refl, true, none, some, [], ◌∷◌, All, arith, ok, err, str_eq, if◌then◌else◌,
}
use labrinth.Flags.Bits.{bits, bits_contain}
use labrinth.Scopes
use labrinth.Users.{DbUser}
use labrinth.Users.Role
use labrinth.Api.{invalid_credentials}
use labrinth.Auth.Tokens.{PersonalAccessToken}
use labrinth.Queue.Auth.{AuthQueue, new, add_pat}
use labrinth.Auth.Validate.{
  Request, Backend, pat, split_once, token_kind, authenticate_pat,
  get_user_record_from_bearer_token, get_user_from_headers, private_user, check_record, has_scopes,
  check_is_moderator_from_headers,
}
use labrinth.Auth.Validate.Grants.{
  get_user-Found, GrantedByPat, Granted, authenticated-Granted, pat_authenticates,
}
use labrinth.Auth.Validate.Scoped.{scopes_enforced, moderator_enforced}
use labrinth.Examples.Teams.{db_user}

abbrev moderator : DbUser ℕ
moderator = db_user 5 "moderator"

-- A token for all scopes that expires at time 100.
abbrev a_pat : PersonalAccessToken
a_pat = record {
  id = 8;
  name = "token";
  access_token = "mrp_x";
  scopes = Scopes.all;
  user_id = 5;
  created = 0;
  expires = 100;
  last_used = none;
}

-- One user with one token, at time 50.
abbrev backend : Backend ℕ
backend = record {
  get_pat = λ token. if str_eq token "mrp_x" then ok (some a_pat) else ok none;
  get_session = λ token. ok none;
  users = moderator ∷ [];
  user_query = ok tt;
  to_lowercase = λ s. s;
  github_account = λ token. err invalid_credentials;
  github_user_id = λ account. ok none;
  rate_limit_ignore = ok "key";
  metadata = err invalid_credentials;
  now = 50;
}

abbrev with_token : Request
with_token = record { authorization = some (some "mrp_x"); ratelimit_key = none }

is_pat : token_kind "mrp_x" ≡ pat
unfolding token_kind split_once
is_pat = refl

granted : GrantedByPat backend "mrp_x" Scopes.all moderator
unfolding labrinth.Auth.Flows.Accounts.get_id
granted = (a_pat, refl, omega arith, get_user-Found backend 5 moderator refl, refl)

token_opens :
    get_user_record_from_bearer_token backend with_token (some "mrp_x") new
    ≡ ok (some (Scopes.all, moderator), add_pat 8 new)
unfolding granted
token_opens = pat_authenticates backend with_token "mrp_x" new Scopes.all moderator granted is_pat

authenticated-Granted_example : Granted backend (token_kind "mrp_x") "mrp_x" Scopes.all moderator
authenticated-Granted_example =
    authenticated-Granted backend with_token "mrp_x" new (add_pat 8 new) Scopes.all moderator
      token_opens

enters :
    (get_user_from_headers bits backend with_token (some (Scopes.project_write ∷ [])) new).0
    ≡ ok (Scopes.all, private_user moderator)
unfolding get_user_from_headers get_user_record_from_bearer_token token_kind split_once
    authenticate_pat check_record has_scopes private_user bits_contain Role.is_mod Role.from_string
    labrinth.Auth.Flows.Accounts.get_id
enters = refl

scopes_enforced_example :
    (u : DbUser ℕ) × (q' : AuthQueue) × (get_user_record_from_bearer_token backend with_token none
        new
      ≡ ok (some (Scopes.all, u), q'))
    × ((private_user moderator).id ≡ u.id)
    × All (λ scope. bits.contains Scopes.all scope ≡ true) (Scopes.project_write ∷ [])
scopes_enforced_example =
    scopes_enforced bits backend with_token (Scopes.project_write ∷ []) new Scopes.all
      (private_user moderator) enters

enters_as_moderator :
    (check_is_moderator_from_headers bits backend with_token new).0 ≡ ok (private_user moderator)
unfolding check_is_moderator_from_headers get_user_from_headers get_user_record_from_bearer_token
    token_kind split_once authenticate_pat check_record has_scopes private_user bits_contain
    Role.is_mod Role.from_string labrinth.Auth.Flows.Accounts.get_id
enters_as_moderator = refl

moderator_found :
    (scopes : ℕ) × (u : DbUser ℕ) × (q' : AuthQueue) × (get_user_record_from_bearer_token backend
        with_token none new
      ≡ ok (some (scopes, u), q'))
    × ((private_user moderator).id ≡ u.id)
    × ((u.role ≡ "admin") ⊎ (u.role ≡ "moderator"))
moderator_found =
    moderator_enforced bits backend with_token new (private_user moderator) enters_as_moderator
