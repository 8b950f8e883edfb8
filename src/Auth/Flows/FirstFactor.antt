-- ===== src/Auth/Flows/FirstFactor.antt =====
-- What a log-in by password has checked.
use labrinth.Base.{
  ℕ, String, ◌≡◌, refl, true, Option, none, some, ok, arith, ◌∙◌, if◌then◌else◌, sym, ap,
}
use labrinth.Users.{DbUser}
use labrinth.Api.{ApiError, Response, json}
use labrinth.Teams.Routes.{is_some}
use labrinth.Auth.Tokens.{Session}
use labrinth.Auth.Sessions.{issue_session}
use labrinth.Auth.Flows.{login2fa, Outside, Db, Env, get, insert, minutes}
use labrinth.Auth.Flows.Login.{
  Login, LoginAnswer, session, two_factor_required, find_login, open_session, ask_code,
  login_password,
}
use labrinth.Auth.Flows.Runs.{get-insert, as_api-ok, lift-ok, some_or-ok, check-ok}

module _ {Decimal : Type 0} (env : Env Decimal) where
  pub open_session-ok :
      (user : ℕ) (db db' : Db Decimal) (o o' : Outside) (answer : Response LoginAnswer)
      → open_session env user db o ≡ (ok (answer, db'), o')
      → (s : Session) × (issue_session env.sessions user db.sessions ≡ ok (s, db'.sessions))
        × (answer ≡ json (session s))
        × (db' ≡ record db { sessions = db'.sessions })
        × (o' ≡ o)
  unfolding open_session
  open_session-ok user db db' o o' answer h =
      let (issued, run, h1) = as_api-ok (issue_session env.sessions user db.sessions) _ h in
      let sessions : db'.sessions ≡ issued.1 = ground arith in
      (
        issued.0,
        run ∙ ap (λ x. ok (issued.0, x)) (sym sessions),
        ground arith,
        ground arith,
        ground arith,
      )

  -- What follows a first factor: a session, or the question for the code.
  pub data Entered (user : DbUser Decimal) (db db' : Db Decimal) (o o' : Outside)
      : Response LoginAnswer → Type 0 where
    entered :
        (s : Session)
        → user.totp_secret ≡ none
        → issue_session env.sessions user.id db.sessions ≡ ok (s, db'.sessions)
        → db' ≡ record db { sessions = db'.sessions }
        → o' ≡ o
        → Entered user db db' o o' (json (session s))
    asked :
        (secret : String)
        → user.totp_secret ≡ some secret
        → db' ≡ db
        → o'.mails ≡ o.mails
        → get env.random_flow env.sessions.now o'.flows ≡ some (login2fa user.id)
        → Entered user db db' o o' (json (two_factor_required env.random_flow))

  ask_code-Entered :
      (user : DbUser Decimal) (secret : String) (db db' : Db Decimal) (o o' : Outside)
      (answer : Response LoginAnswer)
      → user.totp_secret ≡ some secret
      → ask_code env user.id db o ≡ (ok (answer, db'), o')
      → Entered user db db' o o' answer
  unfolding ask_code insert get
  ask_code-Entered user secret db db' o o' answer has h =
      let e : answer ≡ json (two_factor_required env.random_flow) = ground arith in
      let put =
        insert {E = ApiError} (login2fa user.id) (minutes 30) env.random_flow env.sessions.now o in
      let outside : o' ≡ put.1 = ground arith in
      rw (e, outside)
        (asked secret has (ground arith) refl (
          get-insert ApiError (login2fa user.id) (minutes 30) env.random_flow env.sessions.now o
            (omega arith)))

  open_session-Entered :
      (user : DbUser Decimal) (db db' : Db Decimal) (o o' : Outside) (answer : Response LoginAnswer)
      → user.totp_secret ≡ none
      → open_session env user.id db o ≡ (ok (answer, db'), o')
      → Entered user db db' o o' answer
  open_session-Entered user db db' o o' answer has h =
      let (s, run, e, same, outside) = open_session-ok user.id db db' o o' answer h in
      rw e (entered s has run same outside)

  second_factor :
      (user : DbUser Decimal) (secret : Option String) (db db' : Db Decimal) (o o' : Outside)
      (answer : Response LoginAnswer)
      → user.totp_secret ≡ secret
      → (if is_some secret then ask_code env user.id db else open_session env user.id db) o
        ≡ (ok (answer, db'), o')
      → Entered user db db' o o' answer
  second_factor user none db db' o o' answer has h =
      open_session-Entered user db db' o o' answer has h
  second_factor user (some secret) db db' o o' answer has h =
      ask_code-Entered user secret db db' o o' answer has h

  -- A log-in by password that is answered has passed the captcha, and the password fits the hash of
  -- the user with the name or the address. A user without a second factor gets a session, and
  -- nothing else changes; one with a second factor gets none, and the answer is a flow that stands
  -- for this user.
  pub login_password-Entered :
      (login : Login) (db db' : Db Decimal) (o o' : Outside) (answer : Response LoginAnswer)
      → login_password env login db o ≡ (ok (answer, db'), o')
      → (user : DbUser Decimal) × (hash : String) × (env.captcha login.challenge ≡ ok true)
        × (find_login env login.username db.users ≡ some user)
        × (user.password ≡ some hash)
        × (env.verify_password login.password hash ≡ true)
        × Entered user db db' o o' answer
  unfolding login_password
  login_password-Entered login db db' o o' answer h =
      let (passed, p, h1) = lift-ok (env.captcha login.challenge) _ h in
      let (q, h2) = check-ok passed _ _ h1 in
      let (user, found, h3) = some_or-ok (find_login env login.username db.users) _ _ h2 in
      let (hash, has, h4) = some_or-ok user.password _ _ h3 in
      let (_, h5) = check-ok (env.is_hash hash) _ _ h4 in
      let (verified, h6) = check-ok (env.verify_password login.password hash) _ _ h5 in
      (
        user,
        hash,
        ground arith,
        found,
        has,
        verified,
        second_factor user user.totp_secret db db' o o' answer refl h6,
      )

  Entered-users :
      (user : DbUser Decimal) (db db' : Db Decimal) (o o' : Outside) (answer : Response LoginAnswer)
      → Entered user db db' o o' answer
      → db'.users ≡ db.users
  Entered-users user db db' o o' answer (entered s has run same outside) = ap (λ x. x.users) same
  Entered-users user db db' o o' answer (asked secret has same mails put) = ap (λ x. x.users) same

  pub login_password-users :
      (login : Login) (db db' : Db Decimal) (o o' : Outside) (answer : Response LoginAnswer)
      → login_password env login db o ≡ (ok (answer, db'), o')
      → db'.users ≡ db.users
  login_password-users login db db' o o' answer h =
      let (user, hash, f1, f2, f3, f4, how) = login_password-Entered login db db' o o' answer h in
      Entered-users user db db' o o' answer how
