-- ===== src/Auth/Flows/Email.antt =====
-- Addresses of mail: `set_email`, `resend_verify_email`, `verify_email` and `subscribe_newsletter`
-- of src/auth/flows.rs.
use labrinth.Base.{
  ℕ, String, true, false, not, ◌&&◌, Option, none, some, any, ◌==◌, Result, ok, err,
}
use labrinth.Api.{ApiError, invalid_input, sqlx_database, mail, Response, json, no_content}
use labrinth.Teams.Routes.{Auth, current_user}
use labrinth.Auth.Flows.{
  Flow, o_auth, login2fa, initialize2fa, forgot_password, confirm_email, minecraft_auth, Db, Env,
  Action, ◌>>=◌, ◌>>◌, lift, pure, as_api, insert, get_flow, remove, hours, some_or, check,
  bad_credentials,
}
use labrinth.Auth.Flows.Accounts.{get_id, update, same_text}
use labrinth.Auth.Flows.Mails.{notify, send_email, send_email_verify}
use labrinth.Auth.Flows.Providers.{and_then}
use labrinth.Auth.Flows.TwoFactor.{or_false}

abbrev pub email_flow : Flow → Option (ℕ × String)
email_flow (confirm_email user email) = some (user, email)
email_flow (login2fa user) = none
email_flow (o_auth user url provider) = none
email_flow (initialize2fa user secret) = none
email_flow (forgot_password user) = none
email_flow minecraft_auth = none

-- `validate().map_err(|err| ApiError::InvalidInput(..))?`
abbrev pub validated : {A : Type 0} → Result String A → Result ApiError A
validated (ok a) = ok a
validated (err message) = err (invalid_input message)

abbrev no_such_flow : ApiError
no_such_flow = invalid_input "Flow does not exist. Try re-requesting the verification link."

abbrev no_email : ApiError
no_email = invalid_input "User does not have an email."

module _ {Decimal : Type 0} (env : Env Decimal) where
  -- The flow for the new address of a user
  unfoldable pub confirm : ℕ → String → Action ApiError (Unit {0})
  unfolding insert send_email_verify
  confirm user email = do
    flow ← insert (confirm_email user email) (hours 24) env.random_flow env.sessions.now
    send_email_verify mail env email flow

  -- The column `email` is unique.
  unfoldable pub set_email :
      Auth Decimal → String → Db Decimal → Action ApiError (Response (Unit {0}) × Db Decimal)
  unfolding confirm send_email
  set_email auth email db = do
    lift (validated (env.validate_email email))
    user ← lift (current_user auth)
    check (not (any (λ o. not (o.id == user.id) && same_text o.email email) db.users)) sqlx_database
    notify mail env user.email "Email changed"
    confirm user.id email
    pure (
      json tt,
      record db {
        users =
            update (λ u. record u { email = some email; email_verified = false }) user.id db.users;
      },
    )

  unfoldable pub resend_verify_email : Auth Decimal → Action ApiError (Response (Unit {0}))
  unfolding confirm
  resend_verify_email auth = do
    user ← lift (current_user auth)
    email ← some_or user.email no_email
    check (not (or_false user.email_verified)) (invalid_input "User email is already verified!")
    confirm user.id email
    pure no_content

  unfoldable pub verify_email :
      String → Db Decimal → Action ApiError (Response (Unit {0}) × Db Decimal)
  unfolding get_id remove
  verify_email text db = do
    found ← get_flow text env.sessions.now
    flow ← some_or (and_then found email_flow) no_such_flow
    user ← some_or (get_id env.to_lowercase flow.0 db.users) bad_credentials
    check (same_text user.email flow.1) (
        invalid_input
          "E-mail does not match verify email. Try re-requesting the verification link.")
    remove text
    pure (
      no_content,
      record db { users = update (λ u. record u { email_verified = true }) user.id db.users },
    )

  unfoldable pub subscribe_newsletter : Auth Decimal → Action ApiError (Response (Unit {0}))
  subscribe_newsletter auth = do
    user ← lift (current_user auth)
    email ← some_or user.email no_email
    as_api (lift (env.sign_up_beehiiv email))
    pure no_content
