-- ===== src/Auth/Flows/Factors.antt =====
-- Sessions and second factors, over the calls of src/auth/flows.rs.
use mathlib.Core.List.{Memᴰ}
use labrinth.Base.{
  ℕ, String, ◌≡◌, refl, ap, true, ◌||◌, Option, none, some, List, [], ◌∷◌, ◌++◌, ok, arith, ◌==◌,
  ==_refl,
}
use labrinth.Flags.{Bitflags}
use labrinth.Users.{AuthProvider, DbUser}
use labrinth.Users.Find.{get_user}
use labrinth.Api.{Response}
use labrinth.Auth.Tokens.{Session}
use labrinth.Auth.Sessions.{issue_session}
use labrinth.Auth.Flows.{Outside, Db, Env, login2fa, get}
use labrinth.Auth.Flows.Accounts.{get_id, get_email, with_defaults, reads_as}
use labrinth.Auth.Flows.Login.{LoginAnswer, or_else, found_by_email, find_login}
use labrinth.Auth.Flows.Creation.{TempUser, password_user, site_user}
use labrinth.Auth.Flows.OAuth.{Site}
use labrinth.Auth.Flows.FirstFactor.{login_password-Entered, Entered, entered, asked}
use labrinth.Auth.Flows.Backup.{Stored}
use labrinth.Auth.Flows.SecondFactor.{Accepted, login_2fa-Accepted}
use labrinth.Auth.Flows.Changes.{
  set_email-Harmless, verify_email-Harmless, finish_2fa_flow-Harmless, remove_2fa-Harmless,
}
use labrinth.Auth.Flows.Entry.{Added, create_account_with_password-Added}
use labrinth.Auth.Flows.Callback.{
  CameBack, linked_to, asked, entered, created, auth_callback-CameBack,
}
use labrinth.Auth.Flows.Passwords.{change_password-Authorised}
use labrinth.Auth.Flows.AlwaysLogin.{unlinked, find-Memᴰ, set_account-id}
use labrinth.Auth.Flows.Steps.{
  Step, create, log_in, enter_code, finish_2fa, drop_2fa, change, move_email, confirm, unlink,
  come_back,
}

module _ {Decimal : Type 0} (env : Env Decimal) where
  -- The user of an id, or one whose name is the text of this id.
  abbrev pub Stands : ℕ → DbUser Decimal → Type 0
  Stands id u = (u.id == id || reads_as env.to_lowercase id u) ≡ true

  pub data Issued (db db' : Db Decimal) (o : Outside) : Type 0 where
    no_session : db'.sessions ≡ db.sessions → Issued db db' o
    one_factor :
        (id : ℕ) (u : DbUser Decimal) (s : Session)
        → issue_session env.sessions id db.sessions ≡ ok (s, db'.sessions)
        → Memᴰ u db'.users
        → Stands id u
        → u.totp_secret ≡ none
        → Issued db db' o
    two_factors :
        (id : ℕ) (u : DbUser Decimal) (s : Session) (secret text code : String)
        → issue_session env.sessions id db.sessions ≡ ok (s, db'.sessions)
        → Memᴰ u db'.users
        → Stands id u
        → u.totp_secret ≡ some secret
        → get text env.sessions.now o.flows ≡ some (login2fa id)
        → Accepted env.generate_current code secret true u.id db.user_backup_codes
            db'.user_backup_codes
        → Issued db db' o

  last_of : (u : DbUser Decimal) (us : List (DbUser Decimal)) → Memᴰ u (us ++ u ∷ [])
  last_of u [] = Memᴰ.head refl
  last_of u (v ∷ us) = Memᴰ.tail (last_of u us)

  -- Of a new user
  new_user-Issued :
      (id : ℕ) (u : DbUser Decimal) (s : Session) (db db' : Db Decimal) (o : Outside)
      → Added env.zero u db.users db'.users
      → u.id ≡ id
      → issue_session env.sessions id db.sessions ≡ ok (s, db'.sessions)
      → Issued db db' o
  new_user-Issued id u s db db' o added same run =
      one_factor id (with_defaults env.zero u) s run
        (rw added.appended (last_of (with_defaults env.zero u) db.users))
        (ground (arith, ==_refl id)) refl

  or_else-Memᴰ :
      (a b : Option (DbUser Decimal)) (u : DbUser Decimal) (users : List (DbUser Decimal))
      → (a ≡ some u → Memᴰ u users)
      → (b ≡ some u → Memᴰ u users)
      → or_else env a b ≡ some u
      → Memᴰ u users
  or_else-Memᴰ none b u users f g h = g h
  or_else-Memᴰ (some a) b u users f g h = f h

  found_by_email-Memᴰ :
      (m : Option ℕ) (u : DbUser Decimal) (users : List (DbUser Decimal))
      → found_by_email env m users ≡ some u
      → Memᴰ u users
  unfolding get_id
  found_by_email-Memᴰ none u users h = absurd (ground arith)
  found_by_email-Memᴰ (some id) u users h = (find-Memᴰ _ u users h).0

  find_login-Memᴰ :
      (name : String) (u : DbUser Decimal) (users : List (DbUser Decimal))
      → find_login env name users ≡ some u
      → Memᴰ u users
  unfolding find_login get_user
  find_login-Memᴰ name u users h =
      or_else-Memᴰ (get_user env.to_lowercase name users)
        (found_by_email env (get_email name users) users) u users (λ e. (find-Memᴰ _ u users e).0)
        (found_by_email-Memᴰ (get_email name users) u users) h

  Entered-Issued :
      (u : DbUser Decimal) (db db' : Db Decimal) (o o' : Outside) (answer : Response LoginAnswer)
      → Memᴰ u db.users
      → Entered env u db db' o o' answer
      → Issued db db' o
  Entered-Issued u db db' o o' answer there (entered s has run same outside) =
      one_factor u.id u s run (rw (ap (λ (x : Db Decimal). x.users) same) there)
        (ground (arith, ==_refl u.id)) has
  Entered-Issued u db db' o o' answer there (asked secret has same mails put) =
      no_session (ap (λ (x : Db Decimal). x.sessions) same)

  CameBack-Issued :
      (site : Site) (to : Option ℕ) (p : AuthProvider) (t : TempUser) (db db' : Db Decimal)
      (o o' : Outside)
      → CameBack env site to p t db db' o'
      → Issued db db' o
  unfolding get_id
  CameBack-Issued site to p t db db' o o' (linked_to id mine account free set same) =
      no_session same
  CameBack-Issued site to p t db db' o o'
        (asked id user secret none_to owns found is_user has same put) =
      no_session (ap (λ (x : Db Decimal). x.sessions) same)
  CameBack-Issued site to p t db db' o o'
        (entered id user s none_to owns found is_user has run same) =
      let (there, stands) = find-Memᴰ _ user db.users found in
      one_factor id user s run (rw same there) stands has
  CameBack-Issued site to p t db db' o o'
        (created id username avatar_url s none_to account free added run) =
      let row = site_user env site.to_string site.upload p id username avatar_url t in
      new_user-Issued id row s db db' o added (set_account-id env.parse_i64 p (some t.id) _) run

module _ {Decimal : Type 0} (flags : Bitflags) where
  -- A call of the login flows that succeeds opens no session, or one session for an id. The user of
  -- this id, or one whose name is the text of the id, has then no second factor, or the call
  -- named a live flow that stands for the id and gave the code that TOTP has now for the secret of
  -- this user or one of this user's backup codes, which is none of them afterwards. The stored codes
  -- have 64 bits.
  pub Step-Issued :
      (env : Env Decimal) {db db' : Db Decimal} {o o' : Outside}
      → Stored db.user_backup_codes
      → Step flags env db db' o o'
      → Issued env db db' o
  unfolding get_id
  Step-Issued env {db} {db'} {o} {o'} small (create p answer h) =
      let (id, hash, s, added, run, name, email, codes) =
        create_account_with_password-Added env p db db' o o' answer h in
      new_user-Issued env id (password_user env id p hash) s db db' o added refl run
  Step-Issued env {db} {db'} {o} {o'} small (log_in login answer h) =
      let (u, hash, f1, found, f3, f4, how) =
        login_password-Entered env login db db' o o' answer h in
      Entered-Issued env u db db' o o' answer (find_login-Memᴰ env login.username u db.users found)
        how
  Step-Issued env {db} {db'} {o} {o'} small (enter_code login answer h) =
      let (id, u, secret, s, live, found, has, accepted, run, e, same, gone) =
        login_2fa-Accepted env login db db' o o' answer small h in
      let (there, stands) = find-Memᴰ _ u db.users found in
      two_factors id u s secret login.flow login.code run (rw same there) stands has live accepted
  Step-Issued env {db} {db'} {o} {o'} small (finish_2fa auth login answer h) =
      no_session (finish_2fa_flow-Harmless env flags auth login db db' o o' answer h).same_sessions
  Step-Issued env {db} {db'} {o} {o'} small (drop_2fa auth code answer h) =
      no_session (remove_2fa-Harmless env flags auth code db db' o o' answer h).same_sessions
  Step-Issued env {db} {db'} {o} {o'} small (change auth p answer own h) =
      let (user, hash, by, new_hash, updated, same) =
        change_password-Authorised flags env auth p db db' o o' answer h in
      no_session same
  Step-Issued env {db} {db'} {o} {o'} small (move_email auth email answer h) =
      no_session (set_email-Harmless env auth email db db' o o' answer h).same_sessions
  Step-Issued env {db} {db'} {o} {o'} small (confirm text answer h) =
      no_session (verify_email-Harmless env text db db' o o' answer h).same_sessions
  Step-Issued env {db} {db'} {o} {o'} small (unlink scopes u p answer there h) =
      no_session
        (ap (λ (x : Db Decimal). x.sessions) (unlinked env scopes u p db db' o o' answer h).1)
  Step-Issued env {db} {db'} {o} {o'} small (come_back site state answer h) =
      let (to, url, p, t, live, describes, back) =
        auth_callback-CameBack env site state db db' o o' answer h in
      CameBack-Issued env site to p t db db' o o' back
