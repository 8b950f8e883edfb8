-- ===== src/Auth/Flows/OAuth.antt =====
-- Logging in through another site: `init` and `auth_callback` of src/auth/flows.rs. What the
-- site, the sockets and the storage of files answer is a record of functions.
use labrinth.Base.{
  ℕ, String, Bool, not, ◌||◌, Option, none, some, List, any, ◌==◌, str_eq, if◌then◌else◌, Result,
  ok, err,
}
use labrinth.Ids.{codes}
use labrinth.Users.{AuthProvider, DbUser}
use labrinth.Api.{
  AuthenticationError, mail, invalid_credentials, duplicate_user, socket_error, url as bad_url,
}
use labrinth.Teams.Routes.{is_some}
use labrinth.Auth.Sessions.{issue_session}
use labrinth.Auth.Tokens.{Session}
use labrinth.Auth.Flows.{
  Flow, o_auth, login2fa, initialize2fa, forgot_password, confirm_email, minecraft_auth, Db, Env,
  BearerAuth, Action, ◌>>=◌, ◌>>◌, lift, pure, insert, get_flow, remove, minutes, some_or, check,
}
use labrinth.Auth.Flows.Accounts.{get_id}
use labrinth.Auth.Flows.Redirect.{◌<>◌, get_redirect_url}
use labrinth.Auth.Flows.Mails.{notify, send_email}
use labrinth.Auth.Flows.Providers.{and_then, get_user_id, update_user_id}
use labrinth.Auth.Flows.Creation.{TempUser, create_account}

pub record AuthorizationInit : Type 0 where
  pub url : String
  pub provider : AuthProvider
  pub token : Option String

pub record Site : Type 0 where
  -- `Url::parse` and `host_str`
  pub host : String → Option String
  -- ALLOWED_CALLBACK_URLS, and `ends_with`
  pub allowed : List String
  pub ends_with : String → String → Bool
  -- `dotenvy::var` and `urlencoding::encode`
  pub var : String → Option String
  pub encode : String → String
  -- `get_token` and `get_user`
  pub user : AuthProvider → Result AuthenticationError TempUser
  -- the socket that waits for a state takes a text
  pub takes_text : String → Bool
  pub to_string : ℕ → String
  pub upload : ℕ → String → Result AuthenticationError (Option String)
  -- how often a name is tried at most
  pub rounds : ℕ

-- A redirection, or the page that is shown beside a socket.
pub data CallbackAnswer : Type 0 where
  redirect : String → CallbackAnswer
  success : CallbackAnswer

abbrev pub oauth_flow : Flow → Option (Option ℕ × Option String × AuthProvider)
oauth_flow (o_auth user url provider) = some (user, url, provider)
oauth_flow (login2fa user) = none
oauth_flow (initialize2fa user secret) = none
oauth_flow (forgot_password user) = none
oauth_flow (confirm_email user email) = none
oauth_flow minecraft_auth = none

-- `if url.contains('?') { "&" } else { "?" }`
abbrev separator : String → String
separator url = if any (λ c. c == b'?') (codes url) then "&" else "?"

abbrev new_account : Option ℕ → String
new_account none = "&new_account=true"
new_account (some id) = ""

-- The answer, or the error of a route that has committed all the same.
abbrev pub Callback : Type 0 → Type 0
Callback Decimal =
    Action AuthenticationError (Result AuthenticationError CallbackAnswer × Db Decimal)

module _ {Decimal : Type 0} (env : Env Decimal) (site : Site) where
  abbrev init_user : Option String → BearerAuth Decimal → Action AuthenticationError (Option ℕ)
  init_user none auth = pure none
  init_user (some token) auth = do
    found ← lift auth
    user ← some_or found invalid_credentials
    pure (some user.1.id)

  -- The answer is where the browser is sent to.
  unfoldable pub init : AuthorizationInit → BearerAuth Decimal → Action AuthenticationError String
  unfolding insert get_redirect_url
  init info auth = do
    domain ← some_or (site.host info.url) bad_url
    check (any (site.ends_with domain) site.allowed || str_eq domain "modrinth.com") bad_url
    user ← init_user info.token auth
    state ←
        insert (o_auth user (some info.url) info.provider) (minutes 30) env.random_flow
          env.sessions.now
    lift (get_redirect_url site.var site.encode info.provider state)

  abbrev pub linked : Option String → Result AuthenticationError CallbackAnswer
  linked none = err invalid_credentials
  linked (some url) = ok (redirect url)

  abbrev pub email_of : Option (DbUser Decimal) → Option String
  email_of none = none
  email_of (some u) = u.email

  -- A user who is logged in gets the account of the site as well.
  unfoldable pub link :
      ℕ → Option String → AuthProvider → TempUser → Option ℕ → Db Decimal → Callback Decimal
  unfolding update_user_id get_id send_email
  link id url provider t owner db = do
    check (not (is_some owner)) duplicate_user
    notify mail env (email_of (get_id env.to_lowercase id db.users)) "Authentication method added"
    pure (
      linked url,
      record db { users = update_user_id env.parse_i64 provider id (some t.id) db.users },
    )

  abbrev answer_socket : String → CallbackAnswer → Result AuthenticationError CallbackAnswer
  answer_socket state answer = if site.takes_text state then ok answer else err socket_error

  abbrev answer_code : String → Option String → String → Result AuthenticationError CallbackAnswer
  answer_code state none flow = answer_socket state success
  answer_code state (some url) flow =
      ok (redirect (url <> (separator url <> ("error=2fa_required&flow=" <> flow))))

  abbrev pub answer_session :
      String
      → Option String
      → Option ℕ
      → Option (DbUser Decimal)
      → Session
      → Result AuthenticationError CallbackAnswer
  answer_session state (some url) owner user s =
      ok (redirect (url <> (separator url <> ("code=" <> (s.session <> new_account owner)))))
  answer_session state none owner none s = err invalid_credentials
  answer_session state none owner (some user) s = answer_socket state success

  unfoldable pub open_session :
      String → Option String → Option ℕ → ℕ → Db Decimal → Callback Decimal
  unfolding issue_session get_id
  open_session state url owner user db = do
    issued ← lift (issue_session env.sessions user db.sessions)
    pure (
      answer_session state url owner (get_id env.to_lowercase user db.users) issued.0,
      record db { sessions = issued.1 },
    )

  unfoldable pub ask_code : String → Option String → ℕ → Db Decimal → Callback Decimal
  unfolding insert
  ask_code state url user db = do
    flow ← insert (login2fa user) (minutes 30) env.random_flow env.sessions.now
    pure (answer_code state url flow, db)

  -- The user that is found for the id whose row has the account, or a new one.
  unfoldable pub enter :
      String → Option String → AuthProvider → TempUser → Option ℕ → Db Decimal → Callback Decimal
  unfolding get_id create_account open_session ask_code
  enter state url provider t none db = do
    made ← create_account env site.to_string site.upload site.rounds provider t db.users
    open_session state url none made.0 (record db { users = made.1 })
  enter state url provider t (some id) db = do
    user ← some_or (get_id env.to_lowercase id db.users) invalid_credentials
    if is_some user.totp_secret
        then ask_code state url user.id db
        else open_session state url (some id) id db

  abbrev pub dispatch :
      Option ℕ
      → String
      → Option String
      → AuthProvider
      → TempUser
      → Option ℕ
      → Db Decimal
      → Callback Decimal
  dispatch (some id) state url provider t owner db = link id url provider t owner db
  dispatch none state url provider t owner db = enter state url provider t owner db

  unfoldable pub auth_callback : String → Db Decimal → Callback Decimal
  unfolding remove get_user_id link enter
  auth_callback state db = do
    found ← get_flow state env.sessions.now
    flow ← some_or (and_then found oauth_flow) invalid_credentials
    remove state
    t ← lift (site.user flow.2)
    owner ← lift (get_user_id env.parse_i64 flow.2 t.id db.users)
    dispatch flow.0 state flow.1 flow.2 t owner db
