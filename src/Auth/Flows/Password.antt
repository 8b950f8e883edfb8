-- ===== src/Auth/Flows/Password.antt =====
-- Passwords: `reset_password_begin` and `change_password` of src/auth/flows.rs.
use Prim.Native.String
use labrinth.Base.{
  ℕ, String, Bool, ◌||◌, Option, none, some, List, [], ◌∷◌, ltb, if◌then◌else◌, Result, ok, err,
}
use labrinth.Flags.{Bitflags}
use labrinth.Users.{DbUser}
use labrinth.Users.Find.{get_user}
use labrinth.Api.{
  ApiError, env as missing_variable, turnstile, password_hashing, password_strength_check, mail,
  invalid_input, custom_authentication, Response, json,
}
use labrinth.Teams.Routes.{is_some}
use labrinth.Auth.Flows.{
  Flow, o_auth, login2fa, initialize2fa, forgot_password, confirm_email, minecraft_auth, Db, Env,
  BearerAuth, Action, ◌>>=◌, ◌>>◌, lift, pure, insert, get_flow, remove, hours, some_or, check,
  bad_credentials, bearer,
}
use labrinth.Auth.Flows.Accounts.{get_id, get_email, update}
use labrinth.Auth.Flows.Mails.{send_email, notify}
use labrinth.Auth.Flows.Providers.{and_then}

pub record ResetPassword : Type 0 where
  pub username : String
  pub challenge : String

pub record ChangePassword : Type 0 where
  pub flow : Option String
  pub old_password : Option String
  pub new_password : Option String

abbrev pub reset_user : Flow → Option ℕ
reset_user (forgot_password user) = some user
reset_user (login2fa user) = none
reset_user (o_auth user url provider) = none
reset_user (initialize2fa user secret) = none
reset_user (confirm_email user email) = none
reset_user minecraft_auth = none

abbrev weak : Option String → String
weak none = "Specified password is too weak! Please improve its strength."
weak (some warning) = String.◌++◌ "Password too weak: " warning

abbrev pub scored : Option (ℕ × Option String) → Result ApiError (Unit {0})
scored none = err password_strength_check
scored (some (score, warning)) = if ltb score 3 then err (invalid_input (weak warning)) else ok tt

-- `unwrap_or_default`
abbrev pub or_empty : Option String → String
or_empty none = ""
or_empty (some s) = s

-- A user has the account of another site.
abbrev pub has_provider : {Decimal : Type 0} → DbUser Decimal → Bool
has_provider u =
    is_some u.github_id
    || (is_some u.gitlab_id
        || (is_some u.microsoft_id
            || (is_some u.google_id || (is_some u.steam_id || is_some u.discord_id))))

module _ {Decimal : Type 0} (env : Env Decimal) where
  -- The check of a new password, and its hash.
  unfoldable pub strong_hash : String → List String → Action ApiError String
  strong_hash password texts = do
    lift (scored (env.zxcvbn password texts))
    some_or (env.hash_password password) password_hashing

  abbrev found_reset : Option ℕ → String → List (DbUser Decimal) → Option (DbUser Decimal)
  found_reset none name users = get_user env.to_lowercase name users
  found_reset (some id) name users = get_id env.to_lowercase id users

  -- The user of an address, or else of a name.
  unfoldable pub find_reset : String → List (DbUser Decimal) → Option (DbUser Decimal)
  unfolding get_user get_id get_email
  find_reset name users = found_reset (get_email name users) name users

  abbrev send_reset : Option String → String → Action ApiError (Unit {0})
  send_reset none flow = pure tt
  send_reset (some email) flow = do
    site ← some_or env.site_url missing_variable
    path ← some_or env.site_reset_password_path missing_variable
    send_email mail env email "Reset your password" (some (site, path, flow))

  abbrev reset_found : Option (DbUser Decimal) → Action ApiError (Response (Unit {0}))
  reset_found none = pure (json tt)
  reset_found (some user) = do
    flow ← insert (forgot_password user.id) (hours 24) env.random_flow env.sessions.now
    send_reset user.email flow
    pure (json tt)

  -- The body of the answer is empty.
  unfoldable pub reset_password_begin :
      ResetPassword → List (DbUser Decimal) → Action ApiError (Response (Unit {0}))
  unfolding find_reset insert send_email
  reset_password_begin p users = do
    passed ← lift (env.captcha p.challenge)
    check passed turnstile
    reset_found (find_reset p.username users)

  abbrev pub reset_of : Option ℕ → Db Decimal → Action ApiError (Option (DbUser Decimal))
  reset_of none db = pure none
  reset_of (some id) db = do
    user ← some_or (get_id env.to_lowercase id db.users) bad_credentials
    pure (some user)

  -- The user of a flow for a forgotten password.
  unfoldable pub flow_user : Option String → Db Decimal → Action ApiError (Option (DbUser Decimal))
  unfolding get_id
  flow_user none db = pure none
  flow_user (some text) db = do
    found ← get_flow text env.sessions.now
    reset_of (and_then found reset_user) db

  abbrev pub check_old : Option String → Option String → Action ApiError (Unit {0})
  check_old none old_password = pure tt
  check_old (some pass) old_password = do
    old ←
        some_or old_password
          (custom_authentication "You must specify the old password to change your password!")
    check (env.is_hash pass) password_hashing
    check (env.verify_password old pass) password_hashing

  module _ (flags : Bitflags) where
    -- Without such a flow, the user of the token, who knows the old password.
    unfoldable pub changing_user :
        Option (DbUser Decimal)
        → BearerAuth Decimal
        → Option String
        → Action ApiError (DbUser Decimal)
    changing_user (some user) auth old_password = pure user
    changing_user none auth old_password = do
      user ← bearer flags auth
      check_old user.password old_password
      pure user

    unfoldable pub new_password_hash :
        DbUser Decimal → Option String → Action ApiError (Option String)
    unfolding strong_hash
    new_password_hash user (some password) = do
      hash ← strong_hash password (user.username ∷ or_empty user.email ∷ or_empty user.name ∷ [])
      pure (some hash)
    new_password_hash user none = do
      check (has_provider user) (
          invalid_input
            "You must have another authentication method added to remove password authentication!")
      pure none

    abbrev pub remove_used : Option String → Action ApiError (Unit {0})
    remove_used none = pure tt
    remove_used (some text) = remove text

    abbrev pub password_title : Option String → String
    password_title none = "Password removed"
    password_title (some hash) = "Password changed"

    unfoldable pub change_password :
        BearerAuth Decimal
        → ChangePassword
        → Db Decimal
        → Action ApiError (Response (Unit {0}) × Db Decimal)
    unfolding flow_user changing_user new_password_hash remove send_email
    change_password auth p db = do
      reset ← flow_user p.flow db
      user ← changing_user reset auth p.old_password
      hash ← new_password_hash user p.new_password
      remove_used p.flow
      notify mail env user.email (password_title hash)
      pure (
        json tt,
        record db { users = update (λ u. record u { password = hash }) user.id db.users },
      )
