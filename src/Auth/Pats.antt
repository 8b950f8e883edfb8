-- ===== src/Auth/Pats.antt =====
-- Personal access tokens: the routes of src/auth/pats.rs that change them, and the queries and
-- updates of src/database/models/pat_item.rs that these use. The tables are as PostgreSQL has
-- them; what is cached in Redis is left out.
pub mod Steps
pub mod Rows
pub mod Kept
pub mod Owned
pub mod Created
use Prim.Native.String
use labrinth.Base.{
  ℕ, String, Bool, true, false, not, ◌&&◌, ◌||◌, Option, none, some, List, [], ◌∷◌, ◌++◌, map, any,
  filterb, ltb, ◌==◌, str_eq, if◌then◌else◌, Result, ok, err, ok_or, guard, ◌>>=◌, ◌>>◌, length,
}
use labrinth.Flags.{Bitflags, from_bits}
use labrinth.Ids.{DecodingError, codes, parse_base62}
use labrinth.Scopes
use labrinth.Users.{User}
use labrinth.Api.{ApiError, invalid_input, database, sqlx_database, Response, json, no_content}
use labrinth.Auth.Tokens.{PersonalAccessToken}
use labrinth.Teams.Routes.{Auth, current_user}

-- Rows of `pats`.
abbrev pub Pats : Type 0
Pats = List PersonalAccessToken

-- The token that is shown to its owner.
pub record ShownToken : Type 0 where
  pub id : ℕ
  pub name : String
  pub access_token : Option String
  pub scopes : ℕ
  pub user_id : ℕ
  pub created : ℕ
  pub expires : ℕ
  pub last_used : Option ℕ

-- `PersonalAccessToken::from`
unfoldable pub shown_token : PersonalAccessToken → Bool → ShownToken
shown_token row include_token = record {
  id = row.id;
  name = row.name;
  access_token = if include_token then some row.access_token else none;
  scopes = row.scopes;
  user_id = row.user_id;
  created = row.created;
  expires = row.expires;
  last_used = row.last_used;
}

pub record NewPersonalAccessToken : Type 0 where
  pub scopes : ℕ
  pub name : String
  pub expires : ℕ

pub record ModifyPersonalAccessToken : Type 0 where
  pub scopes : Option ℕ
  pub name : Option String
  pub expires : Option ℕ

-- What the routes use of other packages and of the environment.
pub record Env : Type 0 where
  -- `validator::Validate::validate`, for a new token
  pub validate : NewPersonalAccessToken → Result String (Unit {0})
  -- `generate_pat_id`: an id that no row has
  pub new_id : Pats → Option ℕ
  -- sixty letters and digits from ChaCha20Rng
  pub random_text : String
  pub now : ℕ

-- `format!("mrp_{}", token)`
abbrev pub token_text : String → String
token_text text = String.◌∷◌ "m" (String.◌∷◌ "r" (String.◌∷◌ "p" (String.◌∷◌ "_" text)))

-- `Scopes::from_bits(..).unwrap_or(Scopes::NONE)`
abbrev pub or_none : Option ℕ → ℕ
or_none none = Scopes.none_scopes
or_none (some scopes) = scopes

unfoldable pub read_row : Bitflags → PersonalAccessToken → PersonalAccessToken
unfolding from_bits
read_row flags row = record row { scopes = or_none (from_bits flags Scopes.all row.scopes) }

abbrev is_id : Result DecodingError ℕ → ℕ → Bool
is_id (ok n) id = n == id
is_id (err e) id = false

-- `WHERE id = ANY($1) OR access_token = ANY($2)`
abbrev pub is_named : String → PersonalAccessToken → Bool
is_named string row = is_id (parse_base62 (codes string)) row.id || str_eq row.access_token string

-- `ORDER BY created DESC`, and the first of the rows
abbrev later : PersonalAccessToken → Option PersonalAccessToken → PersonalAccessToken
later row none = row
later row (some best) = if ltb row.created best.created then best else row

unfoldable pub newest : Pats → Option PersonalAccessToken
newest [] = none
newest (row ∷ rows) = some (later row (newest rows))

abbrev read : Bitflags → Option PersonalAccessToken → Option PersonalAccessToken
read flags none = none
read flags (some row) = some (read_row flags row)

-- `PersonalAccessToken::get`
unfoldable pub get : Bitflags → String → Pats → Option PersonalAccessToken
unfolding newest read_row
get flags string rows = read flags (newest (filterb (is_named string) rows))

-- `PersonalAccessToken::insert`; the columns `id` and `access_token` are unique, and the column
-- `created` has the time as default.
unfoldable pub insert : ℕ → PersonalAccessToken → Pats → Result ApiError Pats
insert now token rows = do
  guard (not (any (λ row. row.id == token.id || str_eq row.access_token token.access_token) rows))
      sqlx_database
  ok (rows ++ record token { created = now; last_used = none } ∷ [])

-- `PersonalAccessToken::remove`
unfoldable pub remove : ℕ → Pats → Pats
remove id rows = filterb (λ row. not (row.id == id)) rows

-- `UPDATE pats SET … WHERE id = $2`
abbrev pub update : (PersonalAccessToken → PersonalAccessToken) → ℕ → Pats → Pats
update change id rows = map (λ row. if row.id == id then change row else row) rows

abbrev invalid_scopes : ApiError
invalid_scopes = invalid_input "Invalid scopes requested!"

abbrev past_date : ApiError
past_date = invalid_input "Expire date must be in the future!"

abbrev validated : {A : Type 0} → Result String A → Result ApiError A
validated (ok a) = ok a
validated (err message) = err (invalid_input message)

module _ (flags : Bitflags) (env : Env) where
  abbrev pub edit_scopes : ℕ → Option ℕ → Pats → Result ApiError Pats
  edit_scopes id none rows = ok rows
  edit_scopes id (some scopes) rows = do
    guard (not (Scopes.restricted flags scopes)) invalid_scopes
    ok (update (λ row. record row { scopes = scopes }) id rows)

  -- The column has room for 255 characters; the length is not validated before.
  abbrev pub edit_name : ℕ → Option String → Pats → Result ApiError Pats
  edit_name id none rows = ok rows
  edit_name id (some name) rows = do
    guard (not (ltb 255 (length (codes name)))) sqlx_database
    ok (update (λ row. record row { name = name }) id rows)

  abbrev pub edit_expires : ℕ → Option ℕ → Pats → Result ApiError Pats
  edit_expires id none rows = ok rows
  edit_expires id (some expires) rows = do
    guard (not (ltb expires env.now)) past_date
    ok (update (λ row. record row { expires = expires }) id rows)

  abbrev pub edit_own :
      ℕ → Option PersonalAccessToken → ModifyPersonalAccessToken → Pats → Result ApiError Pats
  edit_own user none info rows = ok rows
  edit_own user (some pat) info rows =
      if pat.user_id == user
      then (do
        rows ← edit_scopes pat.id info.scopes rows
        rows ← edit_name pat.id info.name rows
        edit_expires pat.id info.expires rows)
      else ok rows

abbrev pub delete_own : ℕ → Option PersonalAccessToken → Pats → Pats
delete_own user none rows = rows
delete_own user (some pat) rows = if pat.user_id == user then remove pat.id rows else rows

module _ {Decimal : Type 0} (flags : Bitflags) (env : Env) where
  abbrev pub new_token : User Decimal → NewPersonalAccessToken → ℕ → PersonalAccessToken
  new_token user info id = record {
    id = id;
    name = info.name;
    access_token = token_text env.random_text;
    scopes = info.scopes;
    user_id = user.id;
    created = env.now;
    expires = info.expires;
    last_used = none;
  }

  unfoldable pub create_pat :
      Auth Decimal → NewPersonalAccessToken → Pats → Result ApiError (Response ShownToken × Pats)
  unfolding insert shown_token
  create_pat auth info rows = do
    validated (env.validate info)
    guard (not (Scopes.restricted flags info.scopes)) invalid_scopes
    guard (not (ltb info.expires env.now)) past_date
    user ← current_user auth
    id ← ok_or (env.new_id rows) database
    rows ← insert env.now (new_token user info id) rows
    ok (json (shown_token (new_token user info id) true), rows)

  unfoldable pub edit_pat :
      Auth Decimal
      → String
      → ModifyPersonalAccessToken
      → Pats
      → Result ApiError (Response (Unit {0}) × Pats)
  unfolding get
  edit_pat auth id info rows = do
    user ← current_user auth
    rows ← edit_own flags env user.id (get flags id rows) info rows
    ok (no_content, rows)

  unfoldable pub delete_pat :
      Auth Decimal → String → Pats → Result ApiError (Response (Unit {0}) × Pats)
  unfolding get remove
  delete_pat auth id rows = do
    user ← current_user auth
    ok (no_content, delete_own user.id (get flags id rows) rows)
