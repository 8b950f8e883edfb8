-- ===== src/Auth/Flows/Login.antt =====
-- Logging in: `login_password` and `login_2fa` of src/auth/flows.rs.
use labrinth.Base.{ℕ, String, true, Option, none, some, List, if◌then◌else◌}
use labrinth.Users.{DbUser}
use labrinth.Users.Find.{get_user}
use labrinth.Api.{ApiError, turnstile, password_hashing, Response, json}
use labrinth.Teams.Routes.{is_some}
use labrinth.Auth.Tokens.{Session}
use labrinth.Auth.Sessions.{issue_session}
use labrinth.Auth.Flows.{
  Flow, o_auth, login2fa, initialize2fa, forgot_password, confirm_email, minecraft_auth, Db, Env,
  Action, ◌>>=◌, ◌>>◌, lift, pure, as_api, insert, get_flow, remove, minutes, some_or, check,
  bad_credentials,
}
use labrinth.Auth.Flows.Accounts.{get_id, get_email}
use labrinth.Auth.Flows.Codes.{validate_2fa_code}

pub record Login : Type 0 where
  pub username : String
  pub password : String
  pub challenge : String

pub record LoginTwoFactor : Type 0 where
  pub code : String
  pub flow : String

pub data LoginAnswer : Type 0 where
  session : Session → LoginAnswer
  -- the text of the flow
  two_factor_required : String → LoginAnswer

abbrev pub login_user : Flow → Option ℕ
login_user (login2fa user) = some user
login_user (o_auth user url provider) = none
login_user (initialize2fa user secret) = none
login_user (forgot_password user) = none
login_user (confirm_email user email) = none
login_user minecraft_auth = none

module _ {Decimal : Type 0} (env : Env Decimal) where
  abbrev pub found_by_email : Option ℕ → List (DbUser Decimal) → Option (DbUser Decimal)
  found_by_email none users = none
  found_by_email (some id) users = get_id env.to_lowercase id users

  abbrev pub or_else : Option (DbUser Decimal) → Option (DbUser Decimal) → Option (DbUser Decimal)
  or_else (some u) other = some u
  or_else none other = other

  -- The user of a name, or else of an address.
  unfoldable pub find_login : String → List (DbUser Decimal) → Option (DbUser Decimal)
  unfolding get_user get_id get_email
  find_login name users =
      or_else (get_user env.to_lowercase name users) (found_by_email (get_email name users) users)

  -- `issue_session` and the commit
  unfoldable pub open_session : ℕ → Db Decimal → Action ApiError (Response LoginAnswer × Db Decimal)
  unfolding issue_session
  open_session user db = do
    issued ← as_api (lift (issue_session env.sessions user db.sessions))
    pure (json (session issued.0), record db { sessions = issued.1 })

  -- Where the user has two factors
  unfoldable pub ask_code : ℕ → Db Decimal → Action ApiError (Response LoginAnswer × Db Decimal)
  unfolding insert
  ask_code user db = do
    flow ← insert (login2fa user) (minutes 30) env.random_flow env.sessions.now
    pure (json (two_factor_required flow), db)

  unfoldable pub login_password :
      Login → Db Decimal → Action ApiError (Response LoginAnswer × Db Decimal)
  unfolding find_login ask_code open_session
  login_password login db = do
    passed ← lift (env.captcha login.challenge)
    check passed turnstile
    user ← some_or (find_login login.username db.users) bad_credentials
    hash ← some_or user.password bad_credentials
    check (env.is_hash hash) password_hashing
    check (env.verify_password login.password hash) bad_credentials
    if is_some user.totp_secret then ask_code user.id db else open_session user.id db

  unfoldable pub login_2fa :
      LoginTwoFactor → Db Decimal → Action ApiError (Response LoginAnswer × Db Decimal)
  unfolding get_id validate_2fa_code remove open_session
  login_2fa login db = do
    found ← get_flow login.flow env.sessions.now
    flow ← some_or found bad_credentials
    user_id ← some_or (login_user flow) bad_credentials
    user ← some_or (get_id env.to_lowercase user_id db.users) bad_credentials
    secret ← some_or user.totp_secret bad_credentials
    valid ← as_api (
        lift (
          validate_2fa_code env.generate_current login.code secret true user.id
            db.user_backup_codes))
    check valid.0 bad_credentials
    remove login.flow
    open_session user_id (record db { user_backup_codes = valid.1 })
