-- ===== src/Examples/Flows.antt =====
-- Logging in at concrete inputs: user 1 has a password, user 2 a second factor as well.
use labrinth.Base.{ℕ, ◌+◌, ◌≡◌, refl, String, true, none, some, [], ◌∷◌, ok, str_eq, arith}
use labrinth.Flags.Bits.{bits}
use labrinth.Users.{DbUser, User}
use labrinth.Api.{json, Response}
use labrinth.Auth.Tokens.{Session}
use labrinth.Auth.Sessions.{new_session, issue_session}
use labrinth.Auth.Flows.{
  Db, Env, Outside, FlowRow, BearerAuth, login2fa, initialize2fa, forgot_password, confirm_email,
  get,
}
use labrinth.Auth.Flows.Accounts.{get_id}
use labrinth.Auth.Flows.Login.{
  Login, LoginTwoFactor, LoginAnswer, session, find_login, login_password, login_2fa,
}
use labrinth.Auth.Flows.FirstFactor.{Entered, login_password-Entered}
use labrinth.Auth.Flows.SecondFactor.{Accepted, login_2fa-Accepted}
use labrinth.Auth.Flows.Steps.{enter_code, here, next}
use labrinth.Auth.Flows.LoginKept.{LoginKept}
use labrinth.Auth.Flows.AlwaysLogin.{Reach-LoginKept}
use labrinth.Auth.Flows.Factors.{Issued, Step-Issued}
use labrinth.Examples.Teams.{db_user}
use labrinth.Examples.Sessions.{nowhere, session_env}

abbrev pub flow_env : Env ℕ
flow_env = record {
  sessions = session_env;
  captcha = λ challenge. ok true;
  validate_account = λ p. ok tt;
  validate_email = λ email. ok tt;
  is_hash = λ hash. true;
  verify_password = str_eq;
  hash_password = λ password. some password;
  zxcvbn = λ password texts. some (4, none);
  generate_current = λ secret. some "123456";
  random_secret = "secret";
  random_flow = "flow";
  gen_range = λ i low high. low + i;
  new_user_id = λ users. some 7;
  send_email_raw = λ m. true;
  site_url = some "site";
  site_verify_email_path = some "verify";
  site_reset_password_path = some "reset";
  sign_up_beehiiv = λ email. ok tt;
  parse_i64 = λ s. some 5;
  to_lowercase = λ s. s;
  zero = 0;
}

abbrev pub first_user : DbUser ℕ
first_user = record (db_user 1 "developer") {
  username = "first";
  password = some "password";
  email = some "first@mail";
}

abbrev pub second_user : DbUser ℕ
second_user = record (db_user 2 "developer") {
  username = "second";
  password = some "password";
  totp_secret = some "secret";
}

abbrev pub flow_db : Db ℕ
flow_db = record {
  users = first_user ∷ second_user ∷ [];
  user_backup_codes = (2, 77) ∷ [];
  sessions = [];
}

abbrev pub flow_row : FlowRow
flow_row = record { id = "second"; flow = login2fa 2; expires = 1000 }

abbrev pub outside : Outside
outside = record { flows = flow_row ∷ []; mails = [] }

abbrev first_login : Login
first_login = record { username = "first"; password = "password"; challenge = "" }

abbrev session_of : ℕ → Session
session_of user = new_session 300 4 "mra_new" user nowhere

abbrev first_in : Db ℕ
first_in = record flow_db { sessions = session_of 1 ∷ [] }

first_logs_in :
    login_password flow_env first_login flow_db outside
    ≡ (ok (json (session (session_of 1)), first_in), outside)
unfolding login_password labrinth.Users.Find.get_user labrinth.Ids.parse_base62 issue_session
first_logs_in = refl

login_password-Entered_example :
    (user : DbUser ℕ) × (hash : String) × (flow_env.captcha "" ≡ ok true)
    × (find_login flow_env "first" flow_db.users ≡ some user)
    × (user.password ≡ some hash)
    × (flow_env.verify_password "password" hash ≡ true)
    × Entered flow_env user flow_db first_in outside outside (json (session (session_of 1)))
login_password-Entered_example =
    login_password-Entered flow_env first_login flow_db first_in outside outside
      (json (session (session_of 1))) first_logs_in

-- With a backup code: "1F" is 77.
abbrev code_login : LoginTwoFactor
code_login = record { code = "1F"; flow = "second" }

abbrev second_in : Db ℕ
second_in = record flow_db { user_backup_codes = []; sessions = session_of 2 ∷ [] }

abbrev used : Outside
used = record { flows = []; mails = [] }

second_logs_in :
    login_2fa flow_env code_login flow_db outside
    ≡ (ok (json (session (session_of 2)), second_in), used)
unfolding login_2fa get_id labrinth.Ids.parse_base62 labrinth.Ids.to_base62 issue_session get
    labrinth.Auth.Flows.remove labrinth.Auth.Flows.Codes.validate_2fa_code
second_logs_in = refl

login_2fa-Accepted_example :
    (user_id : ℕ) × (user : DbUser ℕ) × (secret : String) × (s : Session) × (get "second" 300
        outside.flows
      ≡ some (login2fa user_id))
    × (get_id flow_env.to_lowercase user_id flow_db.users ≡ some user)
    × (user.totp_secret ≡ some secret)
    × Accepted flow_env.generate_current "1F" secret true user.id ((2, 77) ∷ []) []
    × (issue_session session_env user_id [] ≡ ok (s, session_of 2 ∷ []))
    × (◌≡◌ {A = Response LoginAnswer} (json (session (session_of 2))) (json (session s)))
    × (second_in.users ≡ flow_db.users)
    × ((now : ℕ) → get "second" now [] ≡ none)
login_2fa-Accepted_example =
    login_2fa-Accepted flow_env code_login flow_db second_in outside used
      (json (session (session_of 2))) (omega arith, tt) second_logs_in

Step-Issued_example : Issued flow_env flow_db second_in outside
Step-Issued_example =
    Step-Issued bits flow_env (omega arith, tt)
      (enter_code code_login (json (session (session_of 2))) second_logs_in)

Reach-LoginKept_example : LoginKept second_in.users
Reach-LoginKept_example =
    Reach-LoginKept bits ((refl, (refl, tt)), λ i. ground arith)
      (next flow_env here (enter_code code_login (json (session (session_of 2))) second_logs_in))

-- A user has the text of the id 2 as a name, and stands before user 2 in the table: the code of this
-- user opens a session for user 2.
abbrev impostor : DbUser ℕ
impostor = record (db_user 9 "developer") { username = "2"; totp_secret = some "own" }

abbrev impostor_env : Env ℕ
impostor_env = record flow_env { generate_current = λ secret. some secret }

abbrev impostor_db : Db ℕ
impostor_db = record flow_db { users = impostor ∷ second_user ∷ [] }

other_code_opens :
    login_2fa impostor_env (record { code = "own"; flow = "second" }) impostor_db outside ≡ (
      ok (json (session (session_of 2)), record impostor_db { sessions = session_of 2 ∷ [] }),
      used,
    )
unfolding login_2fa get_id labrinth.Ids.parse_base62 labrinth.Ids.to_base62 issue_session get
    labrinth.Auth.Flows.remove labrinth.Auth.Flows.Codes.validate_2fa_code
other_code_opens = refl
