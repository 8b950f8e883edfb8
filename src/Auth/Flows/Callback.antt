-- ===== src/Auth/Flows/Callback.antt =====
-- What the callback of another site changes in the tables.
use mathlib.Core.Path.{subst}
use labrinth.Base.{
  ℕ, String, ◌≡◌, refl, sym, ap, ◌∙◌, true, Option, none, some, List, ok, arith, Result,
  if◌then◌else◌,
}
use labrinth.Users.{AuthProvider, DbUser}
use labrinth.Api.{AuthenticationError}
use labrinth.Teams.Routes.{is_some}
use labrinth.Auth.Tokens.{Session}
use labrinth.Auth.Sessions.{issue_session}
use labrinth.Auth.Flows.{
  Flow, o_auth, login2fa, initialize2fa, forgot_password, confirm_email, minecraft_auth, Outside,
  Db, Env, get, insert, remove, minutes,
}
use labrinth.Auth.Flows.Accounts.{get_id}
use labrinth.Auth.Flows.ById.{IsUser, get_id-IsUser}
use labrinth.Auth.Flows.Mails.{notify}
use labrinth.Auth.Flows.Providers.{and_then, account_test, get_user_id, update_user_id}
use labrinth.Auth.Flows.Creation.{TempUser, site_user, create_account}
use labrinth.Auth.Flows.OAuth.{
  Site, CallbackAnswer, oauth_flow, email_of, linked, link, open_session, ask_code, enter, dispatch,
  auth_callback,
}
use labrinth.Auth.Flows.Runs.{resume-ok, lift-ok, some_or-ok, tables-ok, get-insert}
use labrinth.Auth.Flows.Entry.{Added, create_account-Added}

module _ {Decimal : Type 0} (env : Env Decimal) (site : Site) where
  -- For the user of the flow, the account of the other site is linked. Without one, if an id has the
  -- account, the user that is found for this id decides whether a code is asked for or a session
  -- opened for the id; and if none has it, a new user gets a session.
  pub data CameBack (to : Option ℕ) (p : AuthProvider) (t : TempUser) (db db' : Db Decimal)
      (o' : Outside) : Type 0 where
    linked_to :
        (id : ℕ)
        → to ≡ some id
        → is_some (account_test {Decimal = Decimal} env.parse_i64 p t.id) ≡ true
        → get_user_id env.parse_i64 p t.id db.users ≡ ok none
        → db'.users ≡ update_user_id env.parse_i64 p id (some t.id) db.users
        → db'.sessions ≡ db.sessions
        → CameBack to p t db db' o'
    asked :
        (id : ℕ) (user : DbUser Decimal) (secret : String)
        → to ≡ none
        → get_user_id env.parse_i64 p t.id db.users ≡ ok (some id)
        → get_id env.to_lowercase id db.users ≡ some user
        → IsUser env.to_lowercase id db.users user
        → user.totp_secret ≡ some secret
        → db' ≡ db
        → get env.random_flow env.sessions.now o'.flows ≡ some (login2fa user.id)
        → CameBack to p t db db' o'
    entered :
        (id : ℕ) (user : DbUser Decimal) (s : Session)
        → to ≡ none
        → get_user_id env.parse_i64 p t.id db.users ≡ ok (some id)
        → get_id env.to_lowercase id db.users ≡ some user
        → IsUser env.to_lowercase id db.users user
        → user.totp_secret ≡ none
        → issue_session env.sessions id db.sessions ≡ ok (s, db'.sessions)
        → db'.users ≡ db.users
        → CameBack to p t db db' o'
    created :
        (id : ℕ) (username : String) (avatar_url : Option String) (s : Session)
        → to ≡ none
        → is_some (account_test {Decimal = Decimal} env.parse_i64 p t.id) ≡ true
        → get_user_id env.parse_i64 p t.id db.users ≡ ok none
        → Added env.zero
            (site_user env site.to_string site.upload p id username avatar_url t)
            db.users
            db'.users
        → issue_session env.sessions id db.sessions ≡ ok (s, db'.sessions)
        → CameBack to p t db db' o'

  get_user_id-account :
      (p : AuthProvider) (id : String) (users : List (DbUser Decimal)) (owner : Option ℕ)
      → get_user_id env.parse_i64 p id users ≡ ok owner
      → is_some (account_test {Decimal = Decimal} env.parse_i64 p id) ≡ true
  unfolding get_user_id
  get_user_id-account p id users owner h = ground arith

  open_session-ok :
      (state : String) (url : Option String) (owner : Option ℕ) (user : ℕ) (db db' : Db Decimal)
      (o o' : Outside) (answer : Result AuthenticationError CallbackAnswer)
      → open_session env site state url owner user db o ≡ (ok (answer, db'), o')
      → (s : Session) × (issue_session env.sessions user db.sessions ≡ ok (s, db'.sessions))
        × (db' ≡ record db { sessions = db'.sessions })
  unfolding open_session
  open_session-ok state url owner user db db' o o' answer h =
      let (issued, run, h1) = lift-ok (issue_session env.sessions user db.sessions) _ h in
      let made : Db Decimal = record db { sessions = issued.1 } in
      let tables : made ≡ db' = tables-ok _ answer made db' h1 in
      (issued.0, run ∙ ap (λ (x : Db Decimal). ok (issued.0, x.sessions)) tables, ground arith)

  link-CameBack :
      (id : ℕ) (url : Option String) (p : AuthProvider) (t : TempUser) (owner : Option ℕ)
      (db db' : Db Decimal) (o o' : Outside) (answer : Result AuthenticationError CallbackAnswer)
      → get_user_id env.parse_i64 p t.id db.users ≡ ok owner
      → link env site id url p t owner db o ≡ (ok (answer, db'), o')
      → CameBack (some id) p t db db' o'
  unfolding link
  link-CameBack id url p t none db db' o o' answer owns h =
      let (_, o1, f1, h1) =
        resume-ok
          (notify AuthenticationError.mail env
            (email_of env site (get_id env.to_lowercase id db.users)) "Authentication method added"
            o)
          _ h in
      let made : Db Decimal = record db {
        users = update_user_id env.parse_i64 p id (some t.id) db.users;
      } in
      let tables : made ≡ db' = tables-ok (linked env site url) answer made db' h1 in
      linked_to id refl (get_user_id-account p t.id db.users none owns) owns
        (sym (ap (λ (x : Db Decimal). x.users) tables))
        (sym (ap (λ (x : Db Decimal). x.sessions) tables))
  link-CameBack id url p t (some other) db db' o o' answer owns h = absurd (ground arith)

  enter_known :
      (state : String) (url : Option String) (p : AuthProvider) (t : TempUser) (id : ℕ)
      (user : DbUser Decimal) (secret : Option String) (db db' : Db Decimal) (o o' : Outside)
      (answer : Result AuthenticationError CallbackAnswer)
      → get_user_id env.parse_i64 p t.id db.users ≡ ok (some id)
      → get_id env.to_lowercase id db.users ≡ some user
      → user.totp_secret ≡ secret
      → (if is_some secret
            then ask_code env site state url user.id db
            else open_session env site state url (some id) id db)
          o
        ≡ (ok (answer, db'), o')
      → CameBack none p t db db' o'
  unfolding ask_code insert
  enter_known state url p t id user none db db' o o' answer owns found has h =
      let (s, run, same) = open_session-ok state url (some id) id db db' o o' answer h in
      entered id user s refl owns found (get_id-IsUser env.to_lowercase id db.users user found) has
        run (ap (λ x. x.users) same)
  enter_known state url p t id user (some secret) db db' o o' answer owns found has h =
      let put =
        insert {E = AuthenticationError} (login2fa user.id) (minutes 30) env.random_flow
          env.sessions.now o in
      let outside : o' ≡ put.1 = ground arith in
      asked id user secret refl owns found (get_id-IsUser env.to_lowercase id db.users user found)
        has (ground arith)
        (rw outside (
          get-insert AuthenticationError (login2fa user.id) (minutes 30) env.random_flow
            env.sessions.now o (omega arith)))

  enter_new :
      (state : String) (url : Option String) (p : AuthProvider) (t : TempUser) (db db' : Db Decimal)
      (o o' : Outside) (answer : Result AuthenticationError CallbackAnswer)
      → get_user_id env.parse_i64 p t.id db.users ≡ ok none
      → enter env site state url p t none db o ≡ (ok (answer, db'), o')
      → CameBack none p t db db' o'
  unfolding enter
  enter_new state url p t db db' o o' answer owns h =
      let (made, o1, f1, h1) =
        resume-ok (create_account env site.to_string site.upload site.rounds p t db.users o) _ h in
      let (username, avatar_url, added) = create_account-Added env site p t db.users made o o1 f1 in
      let (s, run, same) =
        open_session-ok state url none made.0 (record db { users = made.1 }) db' o1 o' answer h1 in
      created made.0 username avatar_url s refl (get_user_id-account p t.id db.users none owns) owns
        (subst
          (λ x.
            Added env.zero (site_user env site.to_string site.upload p made.0 username avatar_url t)
              db.users x)
          (sym (ap (λ (x : Db Decimal). x.users) same)) added)
        run

  dispatch-CameBack :
      (to : Option ℕ) (state : String) (url : Option String) (p : AuthProvider) (t : TempUser)
      (owner : Option ℕ) (db db' : Db Decimal) (o o' : Outside)
      (answer : Result AuthenticationError CallbackAnswer)
      → get_user_id env.parse_i64 p t.id db.users ≡ ok owner
      → dispatch env site to state url p t owner db o ≡ (ok (answer, db'), o')
      → CameBack to p t db db' o'
  unfolding enter
  dispatch-CameBack (some to) state url p t owner db db' o o' answer owns h =
      link-CameBack to url p t owner db db' o o' answer owns h
  dispatch-CameBack none state url p t none db db' o o' answer owns h =
      enter_new state url p t db db' o o' answer owns h
  dispatch-CameBack none state url p t (some id) db db' o o' answer owns h =
      let (user, found, h1) = some_or-ok (get_id env.to_lowercase id db.users) _ _ h in
      enter_known state url p t id user user.totp_secret db db' o o' answer owns found refl h1

  oauth_flow-eq :
      (found : Option Flow) (flow : Option ℕ × Option String × AuthProvider)
      → and_then found oauth_flow ≡ some flow
      → found ≡ some (o_auth flow.0 flow.1 flow.2)
  oauth_flow-eq none flow h = absurd (ground arith)
  oauth_flow-eq (some (o_auth a b c)) flow h = ground arith
  oauth_flow-eq (some (login2fa a)) flow h = absurd (ground arith)
  oauth_flow-eq (some (initialize2fa a b)) flow h = absurd (ground arith)
  oauth_flow-eq (some (forgot_password a)) flow h = absurd (ground arith)
  oauth_flow-eq (some (confirm_email a b)) flow h = absurd (ground arith)
  oauth_flow-eq (some minecraft_auth) flow h = absurd (ground arith)

  -- A callback that reaches its end names a live flow for another site, which describes a user. If
  -- the flow is that of a user, the account becomes this user's, and it was nobody's. Otherwise,
  -- if the row of a user id has the account, what counts is the user that is found for this id: one
  -- that has the id, or one whose name is the text of the id. If the user that is found has a second
  -- factor, a new flow asks for the code of this user and no table changes; if not, a session is
  -- opened for the id. If nobody has the account, a user with it is added and gets a session.
  pub auth_callback-CameBack :
      (state : String) (db db' : Db Decimal) (o o' : Outside)
      (answer : Result AuthenticationError CallbackAnswer)
      → auth_callback env site state db o ≡ (ok (answer, db'), o')
      → (to : Option ℕ) × (url : Option String) × (p : AuthProvider) × (t : TempUser) × (get state
            env.sessions.now o.flows
          ≡ some (o_auth to url p))
        × (site.user p ≡ ok t)
        × CameBack to p t db db' o'
  unfolding auth_callback remove
  auth_callback-CameBack state db db' o o' answer h =
      let (flow, f1, h1) =
        some_or-ok (and_then (get state env.sessions.now o.flows) oauth_flow) _ _ h in
      let (t, f2, h2) = lift-ok (site.user flow.2) _ h1 in
      let (owner, f3, h3) = lift-ok (get_user_id env.parse_i64 flow.2 t.id db.users) _ h2 in
      (
        flow.0,
        flow.1,
        flow.2,
        t,
        oauth_flow-eq (get state env.sessions.now o.flows) flow f1,
        f2,
        dispatch-CameBack flow.0 state flow.1 flow.2 t owner db db'
            (remove {E = AuthenticationError} state o).1 o' answer f3 h3,
      )
