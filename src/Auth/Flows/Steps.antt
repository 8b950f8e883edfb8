-- ===== src/Auth/Flows/Steps.antt =====
-- The calls of the login flows that succeed, and the callbacks that reach their end, as steps on the
-- tables. What is outside of the tables, the environment and the other sites may differ from step to
-- step. Tokens are those of users in the table.
use mathlib.Core.List.{Memᴰ}
use labrinth.Base.{ℕ, String, ◌≡◌, some, List, Result, ok}
use labrinth.Flags.{Bitflags}
use labrinth.Users.{AuthProvider, DbUser}
use labrinth.Api.{AuthenticationError, Response}
use labrinth.Teams.Routes.{Auth}
use labrinth.Auth.Tokens.{Session}
use labrinth.Auth.Validate.{private_user}
use labrinth.Auth.Flows.{NewAccount, Outside, Db, Env, BearerAuth}
use labrinth.Auth.Flows.Login.{Login, LoginTwoFactor, LoginAnswer, login_password, login_2fa}
use labrinth.Auth.Flows.TwoFactor.{finish_2fa_flow, remove_2fa}
use labrinth.Auth.Flows.Password.{ChangePassword, change_password}
use labrinth.Auth.Flows.Email.{set_email, verify_email}
use labrinth.Auth.Flows.Creation.{create_account_with_password}
use labrinth.Auth.Flows.Linking.{delete_auth_provider}
use labrinth.Auth.Flows.OAuth.{Site, CallbackAnswer, auth_callback}

module _ {Decimal : Type 0} (flags : Bitflags) where
  pub data Step (env : Env Decimal) (db db' : Db Decimal) (o o' : Outside) : Type 0 where
    create :
        (p : NewAccount) (answer : Response Session)
        → create_account_with_password env p db o ≡ (ok (answer, db'), o')
        → Step env db db' o o'
    log_in :
        (login : Login) (answer : Response LoginAnswer)
        → login_password env login db o ≡ (ok (answer, db'), o')
        → Step env db db' o o'
    enter_code :
        (login : LoginTwoFactor) (answer : Response LoginAnswer)
        → login_2fa env login db o ≡ (ok (answer, db'), o')
        → Step env db db' o o'
    finish_2fa :
        (auth : Auth Decimal) (login : LoginTwoFactor) (answer : Response (List (List ℕ)))
        → finish_2fa_flow flags env auth login db o ≡ (ok (answer, db'), o')
        → Step env db db' o o'
    drop_2fa :
        (auth : BearerAuth Decimal) (code : String) (answer : Response (Unit {0}))
        → remove_2fa flags env auth code db o ≡ (ok (answer, db'), o')
        → Step env db db' o o'
    change :
        (auth : BearerAuth Decimal) (p : ChangePassword) (answer : Response (Unit {0}))
        → ((scopes : ℕ) (u : DbUser Decimal) → auth ≡ ok (some (scopes, u)) → Memᴰ u db.users)
        → change_password env flags auth p db o ≡ (ok (answer, db'), o')
        → Step env db db' o o'
    move_email :
        (auth : Auth Decimal) (email : String) (answer : Response (Unit {0}))
        → set_email env auth email db o ≡ (ok (answer, db'), o')
        → Step env db db' o o'
    confirm :
        (text : String) (answer : Response (Unit {0}))
        → verify_email env text db o ≡ (ok (answer, db'), o')
        → Step env db db' o o'
    unlink :
        (scopes : ℕ) (u : DbUser Decimal) (p : AuthProvider) (answer : Response (Unit {0}))
        → Memᴰ u db.users
        → delete_auth_provider env (ok (scopes, private_user u)) p db o ≡ (ok (answer, db'), o')
        → Step env db db' o o'
    come_back :
        (site : Site) (state : String) (answer : Result AuthenticationError CallbackAnswer)
        → auth_callback env site state db o ≡ (ok (answer, db'), o')
        → Step env db db' o o'

  -- Any number of steps.
  pub data Reach (db : Db Decimal) : Db Decimal → Type 0 where
    here : Reach db db
    next :
        {db' db'' : Db Decimal} {o o' : Outside} (env : Env Decimal)
        → Reach db db'
        → Step env db' db'' o o'
        → Reach db db''
