-- ===== src/Examples/Sessions.antt =====
-- A session of user 1 is refreshed.
use labrinth.Base.{ℕ, ◌≤◌, ◌≡◌, refl, none, some, [], ◌∷◌, ok, err}
use labrinth.Flags.Bits.{bits}
use labrinth.Scopes
use labrinth.Users.{User}
use labrinth.Api.{json, invalid_credentials}
use labrinth.Queue.Auth.{new, remove_session}
use labrinth.Auth.Tokens.{SessionMetadata, Session}
use labrinth.Auth.Validate.{
  Backend, Request, private_user, TokenKind, token_kind, get_user_from_headers,
}
use labrinth.Auth.Sessions.{Env, get, new_session, issue_session, refresh}
use labrinth.Auth.Sessions.Refreshed.{refresh_unexpired}
use labrinth.Examples.Teams.{db_user}

abbrev pub nowhere : SessionMetadata
nowhere = record {
  city = none;
  country = none;
  ip = "";
  os = none;
  platform = none;
  user_agent = "";
}

abbrev old_session : Session
old_session = new_session 100 3 "mra_old" 1 nowhere

abbrev issued_session : Session
issued_session = new_session 300 4 "mra_new" 1 nowhere

abbrev pub session_env : Env
session_env = record {
  metadata = ok nowhere;
  new_id = λ rows. some 4;
  random_text = "new";
  now = 300;
}

abbrev session_backend : Backend ℕ
session_backend = record {
  get_pat = λ token. ok none;
  get_session = λ token. ok (get token (old_session ∷ []));
  users = db_user 1 "developer" ∷ [];
  user_query = ok tt;
  to_lowercase = λ s. s;
  github_account = λ token. err invalid_credentials;
  github_user_id = λ account. ok none;
  rate_limit_ignore = ok "key";
  metadata = ok nowhere;
  now = 300;
}

abbrev with_session : Request
with_session = record { authorization = some (some "mra_old"); ratelimit_key = none }

abbrev session_user : User ℕ
session_user = private_user (db_user 1 "developer")

is_session : token_kind "mra_old" ≡ TokenKind.session
unfolding token_kind
is_session = refl

login :
    (get_user_from_headers bits session_backend with_session none new).0
    ≡ ok (Scopes.all, session_user)
unfolding get_user_from_headers get labrinth.Ids.parse_base62 labrinth.Auth.Flows.Accounts.get_id
login = refl

refresh_it :
    refresh session_env (ok (Scopes.all, session_user)) (some "mra_old") (old_session ∷ [])
    ≡ ok (json issued_session, issued_session ∷ [])
unfolding refresh labrinth.Ids.parse_base62 private_user remove_session
refresh_it = refl

refresh_unexpired_example :
    (s : Session) × (get "mra_old" (old_session ∷ []) ≡ some s)
    × (session_user.id ≡ s.user_id)
    × (300 ≤ s.expires)
    × (300 ≤ s.refresh_expires)
    × (issue_session session_env s.user_id (remove_session s.id (old_session ∷ []))
        ≡ ok (issued_session, issued_session ∷ []))
refresh_unexpired_example =
    refresh_unexpired bits session_backend with_session new session_env Scopes.all session_user
      "mra_old" issued_session (old_session ∷ []) (issued_session ∷ []) refl is_session refl login
      refresh_it
