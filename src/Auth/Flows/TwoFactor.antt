-- ===== src/Auth/Flows/TwoFactor.antt =====
-- Two factors: `begin_2fa_flow`, `finish_2fa_flow` and `remove_2fa` of src/auth/flows.rs.
use labrinth.Base.{ℕ, String, Bool, true, false, not, Option, none, some, List, ◌==◌}
use labrinth.Flags.{Bitflags}
use labrinth.Api.{ApiError, invalid_input, sqlx_database, mail, Response, json, no_content}
use labrinth.Teams.Routes.{Auth, current_user}
use labrinth.Auth.Flows.{
  Flow, o_auth, login2fa, initialize2fa, forgot_password, confirm_email, minecraft_auth, Db, Env,
  BearerAuth, Action, ◌>>=◌, ◌>>◌, lift, pure, as_api, insert, get_flow, remove, minutes, some_or,
  check, bad_credentials, bearer,
}
use labrinth.Auth.Flows.Accounts.{update, delete_codes}
use labrinth.Auth.Flows.Codes.{validate_2fa_code, new_codes}
use labrinth.Auth.Flows.Mails.{send_email, notify}
use labrinth.Auth.Flows.Login.{LoginTwoFactor}

pub record NewSecret : Type 0 where
  pub secret : String
  pub flow : String

abbrev pub secret_flow : Flow → Option (ℕ × String)
secret_flow (initialize2fa user secret) = some (user, secret)
secret_flow (login2fa user) = none
secret_flow (o_auth user url provider) = none
secret_flow (forgot_password user) = none
secret_flow (confirm_email user email) = none
secret_flow minecraft_auth = none

-- `.unwrap_or(false)`
abbrev pub or_false : Option Bool → Bool
or_false none = false
or_false (some b) = b

module _ {Decimal : Type 0} (flags : Bitflags) (env : Env Decimal) where
  unfoldable pub begin_2fa_flow : Auth Decimal → Action ApiError (Response NewSecret)
  unfolding insert
  begin_2fa_flow auth = do
    user ← lift (current_user auth)
    check (not (or_false user.has_totp))
        (invalid_input "User already has 2FA enabled on their account!")
    flow ←
        insert (initialize2fa user.id env.random_secret) (minutes 30) env.random_flow
          env.sessions.now
    pure (json (record { secret = env.random_secret; flow = flow }))

  -- The answer is the list of the backup codes.
  unfoldable pub finish_2fa_flow :
      Auth Decimal
      → LoginTwoFactor
      → Db Decimal
      → Action ApiError (Response (List (List ℕ)) × Db Decimal)
  unfolding validate_2fa_code remove new_codes send_email
  finish_2fa_flow auth login db = do
    found ← get_flow login.flow env.sessions.now
    flow ← some_or found bad_credentials
    init ← some_or (secret_flow flow) bad_credentials
    user ← lift (current_user auth)
    check (user.id == init.0) bad_credentials
    valid ← as_api (
        lift (
          validate_2fa_code env.generate_current login.code init.1 false user.id
            db.user_backup_codes))
    check valid.0 bad_credentials
    remove login.flow
    codes ← some_or (new_codes env.gen_range 6 0 init.0 (delete_codes init.0 valid.1)) sqlx_database
    notify mail env user.email "Two-factor authentication enabled"
    pure (
      json codes.0,
      record db {
        users = update (λ u. record u { totp_secret = some init.1 }) init.0 db.users;
        user_backup_codes = codes.1;
      },
    )

  unfoldable pub remove_2fa :
      BearerAuth Decimal → String → Db Decimal → Action ApiError (Response (Unit {0}) × Db Decimal)
  unfolding validate_2fa_code send_email
  remove_2fa auth code db = do
    user ← bearer flags auth
    secret ←
        some_or user.totp_secret (invalid_input "User does not have 2FA enabled on the account!")
    valid ← as_api (
        lift (validate_2fa_code env.generate_current code secret true user.id db.user_backup_codes))
    check valid.0 bad_credentials
    notify mail env user.email "Two-factor authentication removed"
    pure (
      no_content,
      record db {
        users = update (λ u. record u { totp_secret = none }) user.id db.users;
        user_backup_codes = delete_codes user.id valid.1;
      },
    )
