-- ===== src/Auth/Flows/Creation.antt =====
-- New users: `create_account_with_password` and `TempUser::create_account` of src/auth/flows.rs.
use Prim.Native.String
use labrinth.Base.{
  ℕ, zero, suc, ◌+◌, String, Bool, true, false, not, Option, none, some, List, [], ◌∷◌, ltb,
  if◌then◌else◌, Result, ok,
}
use labrinth.Users.{AuthProvider, DbUser}
use labrinth.Users.Find.{get_user}
use labrinth.Api.{
  AuthenticationError, database, sqlx, duplicate_user, invalid_credentials, ApiError, turnstile,
  mail, invalid_input, database as api_database, sqlx_database, Response, json,
}
use labrinth.Teams.Routes.{is_some}
use labrinth.Auth.Tokens.{Session}
use labrinth.Auth.Sessions.{issue_session}
use labrinth.Auth.Flows.{
  NewAccount, confirm_email, Db, Env, Action, ◌>>=◌, ◌>>◌, lift, pure, as_api, insert, hours,
  some_or, check,
}
use labrinth.Auth.Flows.Accounts
use labrinth.Auth.Flows.Accounts.{get_email}
use labrinth.Auth.Flows.Mails.{send_email_verify}
use labrinth.Auth.Flows.Providers.{set_account, account_test}
use labrinth.Auth.Flows.Password.{strong_hash}
use labrinth.Auth.Flows.Email.{validated}

-- The user that another site describes.
pub record TempUser : Type 0 where
  pub id : String
  pub username : String
  pub email : Option String
  pub avatar_url : Option String
  pub bio : Option String
  pub name : Option String

-- The columns that both kinds of new users have.
abbrev pub new_user : {Decimal : Type 0} → Decimal → ℕ → ℕ → String → DbUser Decimal
new_user balance id created username = record {
  id = id;
  github_id = none;
  discord_id = none;
  gitlab_id = none;
  google_id = none;
  steam_id = none;
  microsoft_id = none;
  password = none;
  totp_secret = none;
  username = username;
  name = none;
  email = none;
  email_verified = false;
  avatar_url = none;
  bio = none;
  created = created;
  role = "developer";
  badges = 0;
  balance = balance;
  payout_wallet = none;
  payout_wallet_type = none;
  payout_address = none;
}

module _ {Decimal : Type 0} (env : Env Decimal) where
  abbrev pub sign_up : Option Bool → String → Action ApiError (Unit {0})
  sign_up none email = pure tt
  sign_up (some false) email = pure tt
  sign_up (some true) email = as_api (lift (env.sign_up_beehiiv email))

  -- The row of a user with a password.
  abbrev pub password_user : ℕ → NewAccount → String → DbUser Decimal
  password_user id p hash = record (new_user env.zero id env.sessions.now p.username) {
    password = some hash;
    name = some p.username;
    email = some p.email;
  }

  unfoldable pub create_account_with_password :
      NewAccount → Db Decimal → Action ApiError (Response Session × Db Decimal)
  unfolding get_user strong_hash get_email insert send_email_verify Accounts.insert issue_session
  create_account_with_password p db = do
    lift (validated (env.validate_account p))
    passed ← lift (env.captcha p.challenge)
    check passed turnstile
    check (not (is_some (get_user env.to_lowercase p.username db.users)))
        (invalid_input "Username is taken!")
    id ← some_or (env.new_user_id db.users) api_database
    hash ← strong_hash env p.password (p.username ∷ p.email ∷ [])
    check (not (is_some (get_email p.email db.users)))
        (invalid_input "Email is already registered on Modrinth!")
    flow ← insert (confirm_email id p.email) (hours 24) env.random_flow env.sessions.now
    send_email_verify mail env p.email flow
    users ← some_or (Accounts.insert env.zero (password_user id p hash) db.users) sqlx_database
    issued ← as_api (lift (issue_session env.sessions id db.sessions))
    sign_up p.sign_up_newsletter p.email
    pure (json issued.0, record db { users = users; sessions = issued.1 })

  -- What of the other site and of the storage of files is used: the number as text, and
  -- the address of the copied picture.
  module _ (to_string : ℕ → String)
      (upload : ℕ → String → Result AuthenticationError (Option String)) where
    abbrev pub test_username : String → ℕ → String
    test_username name increment =
        if ltb 0 increment then String.◌++◌ name (to_string increment) else name

    -- The loop over the names with a number, in at most so many rounds.
    unfoldable pub free_username : ℕ → String → ℕ → List (DbUser Decimal) → Option String
    unfolding get_user
    free_username zero name increment users = none
    free_username (suc rounds) name increment users =
        let rest = free_username rounds name (increment + 1) users in
        if is_some (get_user env.to_lowercase (test_username name increment) users)
        then rest
        else some (test_username name increment)

    abbrev pub known_email : Option String → List (DbUser Decimal) → Bool
    known_email none users = false
    known_email (some email) users = is_some (get_email email users)

    abbrev pub uploaded : ℕ → Option String → Result AuthenticationError (Option String)
    uploaded id none = ok none
    uploaded id (some url) = upload id url

    -- The row, with the account of the site in its column; its id has to be a number where the
    -- column is one.
    abbrev pub site_user : AuthProvider → ℕ → String → Option String → TempUser → DbUser Decimal
    site_user provider id username avatar_url t =
        set_account env.parse_i64 provider (some t.id)
          (record (new_user env.zero id env.sessions.now username) {
            name = t.name;
            email = t.email;
            email_verified = true;
            avatar_url = avatar_url;
            bio = t.bio;
          })

    abbrev pub is_account : AuthProvider → String → Bool
    is_account provider id = is_some (account_test {Decimal = Decimal} env.parse_i64 provider id)

    unfoldable pub create_account :
        ℕ
        → AuthProvider
        → TempUser
        → List (DbUser Decimal)
        → Action AuthenticationError (ℕ × List (DbUser Decimal))
    unfolding get_email free_username set_account account_test Accounts.insert
    create_account rounds provider t users = do
      check (not (known_email t.email users)) duplicate_user
      id ← some_or (env.new_user_id users) database
      username ← some_or (free_username rounds t.username 0 users) invalid_credentials
      avatar_url ← lift (uploaded id t.avatar_url)
      check (is_account provider t.id) invalid_credentials
      users ←
          some_or (Accounts.insert env.zero (site_user provider id username avatar_url t) users)
            sqlx
      pure (id, users)
