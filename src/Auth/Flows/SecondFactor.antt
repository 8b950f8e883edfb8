-- ===== src/Auth/Flows/SecondFactor.antt =====
-- What a log-in with a second factor has checked.
use labrinth.Base.{
  ℕ, String, ◌≡◌, sym, ap, ◌∙◌, Bool, true, false, Option, none, some, List, str_eq, Result, ok,
  arith, Bool-cases, Option-cases, inl, inr, eq_iff,
}
use labrinth.Ids.{codes, parse_base62}
use labrinth.Users.{DbUser}
use labrinth.Api.{AuthenticationError, ApiError, Response, json}
use labrinth.Auth.Tokens.{Session}
use labrinth.Auth.Sessions.{issue_session}
use labrinth.Auth.Flows.{
  Flow, login2fa, o_auth, initialize2fa, forgot_password, confirm_email, minecraft_auth, Outside,
  Db, Env, get, remove,
}
use labrinth.Auth.Flows.Accounts.{get_id, delete_code}
use labrinth.Auth.Flows.Codes.{code_of, is_backup, validate_2fa_code}
use labrinth.Auth.Flows.Login.{LoginTwoFactor, LoginAnswer, session, login_user, login_2fa}
use labrinth.Auth.Flows.Runs.{as_api-ok, some_or-ok, check-ok, get-remove}
use labrinth.Auth.Flows.FirstFactor.{open_session-ok}
use labrinth.Auth.Flows.Backup.{Stored, is_backup-delete_code}

-- A code is the one that TOTP has now, or a backup code, which is gone afterwards.
pub data Accepted (generate_current : String → Option String) (input secret : String)
    (allow_backup : Bool) (user : ℕ) (rows rows' : List (ℕ × ℕ)) : Type 0 where
  current :
      generate_current secret ≡ some input
      → rows' ≡ rows
      → Accepted generate_current input secret allow_backup user rows rows'
  backup :
      allow_backup ≡ true
      → is_backup input user rows ≡ true
      → rows' ≡ delete_code user (code_of (parse_base62 (codes input))) rows
      → is_backup input user rows' ≡ false
      → Accepted generate_current input secret allow_backup user rows rows'

pub validate_2fa_code-Accepted :
    (generate_current : String → Option String) (input secret : String) (allow_backup : Bool)
    (user : ℕ) (rows rows' : List (ℕ × ℕ))
    → Stored rows
    → validate_2fa_code generate_current input secret allow_backup user rows ≡ ok (true, rows')
    → Accepted generate_current input secret allow_backup user rows rows'
unfolding validate_2fa_code
validate_2fa_code-Accepted generate_current input secret allow_backup user rows rows' small h =
    elim (Option-cases (generate_current secret)) [
      | inl e ↦ absurd (ground arith)
      | inr (token, e) ↦ elim (Bool-cases (str_eq input token)) [
        | inl same ↦
            let it : input ≡ token = (eq_iff input token).0 same in
            current (e ∙ ap some (sym it)) (ground arith)
        | inr other ↦
            let left = delete_code user (code_of (parse_base62 (codes input))) rows in
            let allowed : allow_backup ≡ true = ground arith in
            let one : is_backup input user rows ≡ true = ground arith in
            let rest : rows' ≡ left = ground arith in
            backup allowed one rest (rw rest (is_backup-delete_code input user rows small))
      ]
    ]

flow_login : (flow : Flow) (user : ℕ) → login_user flow ≡ some user → flow ≡ login2fa user
flow_login (login2fa u) user h = ground arith
flow_login (o_auth a b c) user h = absurd (ground arith)
flow_login (initialize2fa a b) user h = absurd (ground arith)
flow_login (forgot_password a) user h = absurd (ground arith)
flow_login (confirm_email a b) user h = absurd (ground arith)
flow_login minecraft_auth user h = absurd (ground arith)

code_run :
    (r : Result AuthenticationError (Bool × List (ℕ × ℕ))) (valid : Bool × List (ℕ × ℕ))
    (rows' : List (ℕ × ℕ))
    → r ≡ ok valid
    → valid.0 ≡ true
    → valid.1 ≡ rows'
    → r ≡ ok (true, rows')
code_run r valid rows' run accepts kept = ground arith

module _ {Decimal : Type 0} (env : Env Decimal) where
  login_2fa_run :
      (login : LoginTwoFactor) (db db' : Db Decimal) (o o' : Outside)
      (answer : Response LoginAnswer)
      → login_2fa env login db o ≡ (ok (answer, db'), o')
      → (user_id : ℕ) × (user : DbUser Decimal) × (secret : String) × (s : Session) × (get
            login.flow env.sessions.now o.flows
          ≡ some (login2fa user_id))
        × (get_id env.to_lowercase user_id db.users ≡ some user)
        × (user.totp_secret ≡ some secret)
        × (validate_2fa_code env.generate_current login.code secret true user.id
              db.user_backup_codes
            ≡ ok (true, db'.user_backup_codes))
        × (issue_session env.sessions user_id db.sessions ≡ ok (s, db'.sessions))
        × (answer ≡ json (session s))
        × (db'.users ≡ db.users)
        × ((now : ℕ) → get login.flow now o'.flows ≡ none)
  unfolding login_2fa remove
  login_2fa_run login db db' o o' answer h =
      let (flow, f1, h1) = some_or-ok (get login.flow env.sessions.now o.flows) _ _ h in
      let (user_id, f2, h2) = some_or-ok (login_user flow) _ _ h1 in
      let (user, f3, h3) = some_or-ok (get_id env.to_lowercase user_id db.users) _ _ h2 in
      let (secret, f4, h4) = some_or-ok user.totp_secret _ _ h3 in
      let (valid, f5, h5) =
        as_api-ok
          (validate_2fa_code env.generate_current login.code secret true user.id
            db.user_backup_codes)
          _ h4 in
      let (f6, h6) = check-ok valid.0 _ _ h5 in
      let (s, run, e, same, outside) =
        open_session-ok env user_id (record db { user_backup_codes = valid.1 }) db'
          (remove {E = ApiError} login.flow o).1 o' answer h6 in
      (
        user_id,
        user,
        secret,
        s,
        f1 ∙ ap some (flow_login flow user_id f2),
        f3,
        f4,
        code_run
            (validate_2fa_code env.generate_current login.code secret true user.id
              db.user_backup_codes)
            valid db'.user_backup_codes f5 f6 (sym (ap (λ x. x.user_backup_codes) same)),
        run,
        e,
        ap (λ x. x.users) same,
        λ now. ap (λ x. get login.flow now x.flows) outside ∙ get-remove ApiError login.flow now o,
      )

  -- A log-in with a second factor that is answered names a live flow that stands for a user id; the
  -- code is the one that TOTP has now for the secret of the user that is found for this id, or one
  -- of this user's backup codes, which is none of them afterwards. The session is for this id, the
  -- flow is gone, and no row of a user changes. The stored codes have 64 bits.
  pub login_2fa-Accepted :
      (login : LoginTwoFactor) (db db' : Db Decimal) (o o' : Outside)
      (answer : Response LoginAnswer)
      → Stored db.user_backup_codes
      → login_2fa env login db o ≡ (ok (answer, db'), o')
      → (user_id : ℕ) × (user : DbUser Decimal) × (secret : String) × (s : Session) × (get
            login.flow env.sessions.now o.flows
          ≡ some (login2fa user_id))
        × (get_id env.to_lowercase user_id db.users ≡ some user)
        × (user.totp_secret ≡ some secret)
        × Accepted env.generate_current login.code secret true user.id db.user_backup_codes
            db'.user_backup_codes
        × (issue_session env.sessions user_id db.sessions ≡ ok (s, db'.sessions))
        × (answer ≡ json (session s))
        × (db'.users ≡ db.users)
        × ((now : ℕ) → get login.flow now o'.flows ≡ none)
  login_2fa-Accepted login db db' o o' answer small h =
      let (user_id, user, secret, s, live, found, has, valid, run, e, same, gone) =
        login_2fa_run login db db' o o' answer h in
      (
        user_id,
        user,
        secret,
        s,
        live,
        found,
        has,
        validate_2fa_code-Accepted env.generate_current login.code secret true user.id
            db.user_backup_codes db'.user_backup_codes small valid,
        run,
        e,
        same,
        gone,
      )

  pub login_2fa-users :
      (login : LoginTwoFactor) (db db' : Db Decimal) (o o' : Outside)
      (answer : Response LoginAnswer)
      → login_2fa env login db o ≡ (ok (answer, db'), o')
      → db'.users ≡ db.users
  login_2fa-users login db db' o o' answer h =
      let (user_id, user, secret, s, live, found, has, valid, run, e, same, gone) =
        login_2fa_run login db db' o o' answer h in
      same
