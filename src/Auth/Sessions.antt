-- ===== src/Auth/Sessions.antt =====
-- Sessions: `issue_session` and the routes of src/auth/session.rs that change sessions, with the
-- queries of src/database/models/session_item.rs. What is cached in Redis is left out.
pub mod Refreshed
use Prim.Native.String
use labrinth.Base.{
  ℕ, ◌+◌, ◌*◌, String, Bool, true, false, not, ◌&&◌, ◌||◌, Option, none, some, List, [], ◌∷◌, ◌++◌,
  any, find, filterb, ltb, ◌==◌, str_eq, if◌then◌else◌, Result, ok, err, ok_or, guard, ◌>>=◌, ◌>>◌,
}
use labrinth.Ids.{DecodingError, codes, parse_base62}
use labrinth.Users.{User}
use labrinth.Api.{
  AuthenticationError, ApiError, authentication, invalid_credentials, database, Response, json,
  no_content,
}
use labrinth.Auth.Tokens.{SessionMetadata, Session}
use labrinth.Queue.Auth.{remove_session}
use labrinth.Teams.Routes.{Auth, current_user}

-- What is used of the request, of other packages and of the clock.
pub record Env : Type 0 where
  -- `get_session_metadata`
  pub metadata : Result AuthenticationError SessionMetadata
  -- `generate_session_id`
  pub new_id : List Session → Option ℕ
  -- sixty letters and digits from ChaCha20Rng
  pub random_text : String
  pub now : ℕ

-- `format!("mra_{session}")`
abbrev pub session_text : String → String
session_text text = String.◌∷◌ "m" (String.◌∷◌ "r" (String.◌∷◌ "a" (String.◌∷◌ "_" text)))

abbrev is_id : Result DecodingError ℕ → ℕ → Bool
is_id (ok n) id = n == id
is_id (err e) id = false

-- `WHERE id = ANY($1) OR session = ANY($2)`
abbrev pub is_named : String → Session → Bool
is_named string s = is_id (parse_base62 (codes string)) s.id || str_eq s.session string

-- `ORDER BY created DESC`, and the first of the rows
abbrev later : Session → Option Session → Session
later s none = s
later s (some best) = if ltb s.created best.created then best else s

unfoldable pub newest : List Session → Option Session
newest [] = none
newest (s ∷ rows) = some (later s (newest rows))

-- `Session::get`
unfoldable pub get : String → List Session → Option Session
unfolding newest
get string rows = newest (filterb (is_named string) rows)

-- `Session::get_id`; the text of a session has a "_" and so is the text of no id.
abbrev pub get_id : ℕ → List Session → Option Session
get_id id rows = find (λ s. s.id == id) rows

abbrev pub days : ℕ → ℕ
days n = n * 86400

-- The row that `SessionBuilder::insert` adds, with the defaults of the columns.
abbrev pub new_session : ℕ → ℕ → String → ℕ → SessionMetadata → Session
new_session now id text user metadata = record {
  id = id;
  session = text;
  user_id = user;
  created = now;
  last_login = now;
  expires = now + days 14;
  refresh_expires = now + days 60;
  metadata = metadata;
}

-- The columns `id` and `session` are unique.
unfoldable pub insert : Session → List Session → Result AuthenticationError (List Session)
insert s rows = do
  guard (not (any (λ r. r.id == s.id || str_eq r.session s.session) rows))
      AuthenticationError.database
  ok (rows ++ s ∷ [])

module _ (env : Env) where
  unfoldable pub issue_session :
      ℕ → List Session → Result AuthenticationError (Session × List Session)
  unfolding insert
  issue_session user rows = do
    metadata ← env.metadata
    id ← ok_or (env.new_id rows) AuthenticationError.database
    rows ← insert (new_session env.now id (session_text env.random_text) user metadata) rows
    s ← ok_or (get_id id rows) invalid_credentials
    ok (s, rows)

abbrev pub as_api : {A : Type 0} → Result AuthenticationError A → Result ApiError A
as_api (ok a) = ok a
as_api (err e) = err (authentication e)

abbrev pub delete_own : ℕ → Option Session → List Session → List Session
delete_own user none rows = rows
delete_own user (some s) rows = if s.user_id == user then remove_session s.id rows else rows

module _ {Decimal : Type 0} (env : Env) where
  unfoldable pub delete :
      Auth Decimal → String → List Session → Result ApiError (Response (Unit {0}) × List Session)
  unfolding get
  delete auth id rows = do
    user ← current_user auth
    ok (no_content, delete_own user.id (get id rows) rows)

  -- The answer is the new session, with its text.
  unfoldable pub refresh :
      Auth Decimal
      → Option String
      → List Session
      → Result ApiError (Response Session × List Session)
  unfolding get issue_session
  refresh auth header rows = do
    user ← current_user auth
    token ← ok_or header (authentication invalid_credentials)
    s ← ok_or (get token rows) (authentication invalid_credentials)
    guard (user.id == s.user_id && not (ltb s.refresh_expires env.now))
        (authentication invalid_credentials)
    issued ← as_api (issue_session env s.user_id (remove_session s.id rows))
    ok (json issued.0, issued.1)
