-- ===== src/Auth/Validate.antt =====
-- `src/auth/validate.rs`: from the headers of a request to a user and the scopes of the token.
-- What the database, GitHub and the environment answer are functions of a record; the queue of
-- used sessions and tokens is the state.
pub mod Grants
pub mod Scoped
use Prim.Native.Char.{Char, code}
use Prim.Native.String
use labrinth.Base.{
  ℕ, String, Bool, true, false, Option, none, some, List, [], ◌∷◌, ◌++◌, ltb, ◌==◌, str_eq,
  if◌then◌else◌, Result, ok, err, ok_or, ◌>>=◌, get_or, ◌||◌,
}
use labrinth.Flags.{Bitflags}
use labrinth.Scopes
use labrinth.Users.{AuthProvider, DbUser, User, github, gitlab, discord, google, microsoft, steam}
use labrinth.Users.Role
use labrinth.Api.{AuthenticationError, invalid_credentials, invalid_auth_method}
use labrinth.Auth.Tokens.{SessionMetadata, Session, PersonalAccessToken}
use labrinth.Queue.Auth.{AuthQueue, add_session, add_pat}
use labrinth.Auth.Flows.Accounts.{get_id}

-- `str::split_once`
unfoldable pub split_once : ℕ → String → Option (String × String)
split_once sep String.[] = none
split_once sep (String.◌∷◌ c s) =
    let rest = split_once sep s in
    if code c == sep
    then some (String.[], s)
    else elim rest [ none ↦ none | some (before, after) ↦ some (String.◌∷◌ c before, after) ]

-- The headers of a request that are read here. A header is `none` if absent; its value is `none`
-- if it is no text.
pub record Request : Type 0 where
  pub authorization : Option (Option String)
  pub ratelimit_key : Option (Option String)

pub record Backend (Decimal : Type 0) : Type 0 where
  -- `PersonalAccessToken::get` and `Session::get`
  pub get_pat : String → Result AuthenticationError (Option PersonalAccessToken)
  pub get_session : String → Result AuthenticationError (Option Session)
  -- The table that `User::get_id` reads, and whether the query can be made
  pub users : List (DbUser Decimal)
  pub user_query : Result AuthenticationError (Unit {0})
  pub to_lowercase : String → String
  -- `AuthProvider::GitHub`: `get_user`, the id of the account, and `get_user_id`
  pub github_account : String → Result AuthenticationError String
  pub github_user_id : String → Result AuthenticationError (Option ℕ)
  -- `dotenvy::var("RATE_LIMIT_IGNORE_KEY")`
  pub rate_limit_ignore : Result AuthenticationError String
  -- `get_session_metadata`
  pub metadata : Result AuthenticationError SessionMetadata
  -- `Utc::now()`
  pub now : ℕ

-- What a call returns, with the queue after it; on an error the queue is as it was.
abbrev pub Authenticated : Type 0 → Type 0
Authenticated Decimal = Option (ℕ × DbUser Decimal) × AuthQueue

abbrev with_scopes : {Decimal : Type 0} → ℕ → Option (DbUser Decimal) → Option (ℕ × DbUser Decimal)
with_scopes scopes none = none
with_scopes scopes (some user) = some (scopes, user)

abbrev header_token : Request → Result AuthenticationError String
header_token req = do
  value ← ok_or req.authorization invalid_auth_method
  ok_or value invalid_credentials

abbrev ignores_limit : Request → String → Bool
ignores_limit req key = elim req.ratelimit_key [
  | none ↦ false
  | some value ↦ elim value [ none ↦ false | some text ↦ str_eq text key ]
]

-- What kind of token a text is, by the part before its first "_".
pub data TokenKind : Type 0 where
  pat session github_token unknown : TokenKind

abbrev kind_of_prefix : Option (String × String) → TokenKind
kind_of_prefix none = unknown
kind_of_prefix (some (prefix, _)) =
    if str_eq prefix "mrp"
    then pat
    else if str_eq prefix "mra"
    then session
    else if str_eq prefix "github" || str_eq prefix "gho" || str_eq prefix "ghp"
    then github_token
    else unknown

unfoldable pub token_kind : String → TokenKind
unfolding split_once
token_kind token = kind_of_prefix (split_once b'_' token)

module _ {Decimal : Type 0} (b : Backend Decimal) where
  open b use {
    get_pat, get_session, users, user_query, to_lowercase, github_account, github_user_id,
    rate_limit_ignore, metadata, now,
  }

  -- `User::get_id`
  abbrev pub get_user : ℕ → Result AuthenticationError (Option (DbUser Decimal))
  get_user id = do done ← user_query; ok (get_id to_lowercase id users)

  unfoldable pub authenticate_pat :
      String → AuthQueue → Result AuthenticationError (Authenticated Decimal)
  authenticate_pat token q = do
    found ← get_pat token
    row ← ok_or found invalid_credentials
    if ltb row.expires now
        then err invalid_credentials
        else do user ← get_user row.user_id; ok (with_scopes row.scopes user, add_pat row.id q)

  unfoldable pub authenticate_session :
      Request → String → AuthQueue → Result AuthenticationError (Authenticated Decimal)
  authenticate_session req token q = do
    found ← get_session token
    row ← ok_or found invalid_credentials
    if ltb row.expires now then err invalid_credentials else do
      user ← get_user row.user_id
      key ← rate_limit_ignore
      if ignores_limit req key
          then ok (with_scopes Scopes.all user, q)
          else do data' ← metadata; ok (with_scopes Scopes.all user, add_session row.id data' q)

  unfoldable pub authenticate_github :
      String → AuthQueue → Result AuthenticationError (Authenticated Decimal)
  authenticate_github token q = do
    account ← github_account token
    found ← github_user_id account
    id ← ok_or found invalid_credentials
    user ← get_user id
    ok (with_scopes Scopes.not_restricted user, q)

  abbrev pub authenticate :
      TokenKind → Request → String → AuthQueue → Result AuthenticationError (Authenticated Decimal)
  authenticate pat req token q = authenticate_pat token q
  authenticate session req token q = authenticate_session req token q
  authenticate github_token req token q = authenticate_github token q
  authenticate unknown req token q = err invalid_auth_method

  unfoldable pub get_user_record_from_bearer_token :
      Request → Option String → AuthQueue → Result AuthenticationError (Authenticated Decimal)
  unfolding token_kind authenticate_pat authenticate_session authenticate_github
  get_user_record_from_bearer_token req given q = do
    token ← elim given [ some token ↦ ok token | none ↦ header_token req ]
    authenticate (token_kind token) req token q

abbrev pub provider {ℓ} : {A : Type ℓ} → AuthProvider → Option A → List AuthProvider
provider p none = []
provider p (some id) = p ∷ []

abbrev is_some {ℓ} : {A : Type ℓ} → Option A → Bool
is_some none = false
is_some (some a) = true

-- The user that the API returns to itself, with its private fields.
unfoldable pub private_user : {Decimal : Type 0} → DbUser Decimal → User Decimal
private_user db_user = record {
  id = db_user.id;
  username = db_user.username;
  name = db_user.name;
  avatar_url = db_user.avatar_url;
  bio = db_user.bio;
  created = db_user.created;
  role = Role.from_string db_user.role;
  badges = db_user.badges;
  payout_data = some (record {
    balance = db_user.balance;
    payout_wallet = db_user.payout_wallet;
    payout_wallet_type = db_user.payout_wallet_type;
    payout_address = db_user.payout_address;
  });
  auth_providers = some (
      provider github db_user.github_id
      ++ (provider gitlab db_user.gitlab_id
          ++ (provider discord db_user.discord_id
              ++ (provider google db_user.google_id
                  ++ (provider microsoft db_user.microsoft_id
                      ++ provider steam db_user.steam_id)))));
  email = db_user.email;
  email_verified = some db_user.email_verified;
  has_password = some (is_some db_user.password);
  has_totp = some (is_some db_user.totp_secret);
  github_id = none;
}

-- The loop over the scopes that a route asks for.
unfoldable pub has_scopes : Bitflags → ℕ → List ℕ → Bool
has_scopes flags scopes [] = true
has_scopes flags scopes (scope ∷ required) =
    if flags.contains scopes scope then has_scopes flags scopes required else false

abbrev required_list : Option (List ℕ) → List ℕ
required_list none = []
required_list (some required) = required

-- The checks of `get_user_from_headers` on the record that was found.
unfoldable pub check_record :
    {Decimal : Type 0}
    → Bitflags
    → List ℕ
    → Option (ℕ × DbUser Decimal)
    → Result AuthenticationError (ℕ × User Decimal)
unfolding private_user has_scopes
check_record flags required none = err invalid_credentials
check_record flags required (some (scopes, db_user)) =
    if has_scopes flags scopes required
    then ok (scopes, private_user db_user)
    else err invalid_credentials

abbrev check_moderator :
    {Decimal : Type 0} → ℕ × User Decimal → Result AuthenticationError (User Decimal)
check_moderator (scopes, user) = if Role.is_mod user.role then ok user else err invalid_credentials

-- The queue keeps what was queued, also where a scope is missing.
module _ {Decimal : Type 0} (flags : Bitflags) (b : Backend Decimal) where
  unfoldable pub get_user_from_headers :
      Request
      → Option (List ℕ)
      → AuthQueue
      → Result AuthenticationError (ℕ × User Decimal) × AuthQueue
  unfolding get_user_record_from_bearer_token check_record
  get_user_from_headers req required q = elim (get_user_record_from_bearer_token b req none q) [
    | err e ↦ (err e, q)
    | ok (found, q') ↦ (check_record flags (required_list required) found, q')
  ]

  unfoldable pub check_is_moderator_from_headers :
      Request → AuthQueue → Result AuthenticationError (User Decimal) × AuthQueue
  unfolding get_user_from_headers
  check_is_moderator_from_headers req q =
      let (r, q') = get_user_from_headers req none q in (r >>= check_moderator, q')
