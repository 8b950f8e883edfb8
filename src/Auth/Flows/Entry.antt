-- ===== src/Auth/Flows/Entry.antt =====
-- What the calls change in the tables that open a session, for new users and through other sites.
use mathlib.Core.Path.{subst}
use labrinth.Base.{
  Result, ℕ, String, ◌≡◌, refl, sym, ap, ◌∙◌, Bool, true, false, not, ◌||◌, Option, none, some,
  List, [], ◌∷◌, ◌++◌, any, ok, arith, ◌==◌, str_eq,
}
use labrinth.Users.{AuthProvider, DbUser}
use labrinth.Users.Find.{get_user}
use labrinth.Api.{AuthenticationError, ApiError, Response, json}
use labrinth.Teams.Routes.{is_some}
use labrinth.Auth.Tokens.{Session}
use labrinth.Auth.Sessions.{issue_session}
use labrinth.Auth.Flows.{NewAccount, Outside, Db, Env, insert, confirm_email, hours}
use labrinth.Auth.Flows.Accounts
use labrinth.Auth.Flows.Accounts.{update, get_id, get_email, reads_as, has_email, with_defaults}
use labrinth.Auth.Flows.Mails.{send_email_verify}
use labrinth.Auth.Flows.Email.{validated}
use labrinth.Auth.Flows.Password.{strong_hash}
use labrinth.Auth.Flows.OAuth.{Site}
use labrinth.Auth.Flows.Creation.{
  TempUser, free_username, uploaded, known_email, site_user, is_account, create_account, sign_up,
  password_user, create_account_with_password,
}
use labrinth.Auth.Flows.Runs.{tables-ok, resume-ok, lift-ok, as_api-ok, some_or-ok, check-ok}

module _ {Decimal : Type 0} where
  -- The row is added, with an id that no row has.
  pub record Added (balance : Decimal) (u : DbUser Decimal) (users users' : List (DbUser Decimal))
      : Type 0 where
    pub appended : users' ≡ users ++ with_defaults balance u ∷ []
    pub fresh : any (λ o. o.id == u.id) users ≡ false

  any_less :
      (p q : DbUser Decimal → Bool) (users : List (DbUser Decimal))
      → any (λ o. p o || q o) users ≡ false
      → any p users ≡ false
  any_less p q [] h = refl
  any_less p q (r ∷ rows) h = ground (arith, any_less p q rows)

  pub insert-Added :
      (balance : Decimal) (u : DbUser Decimal) (users users' : List (DbUser Decimal))
      → Accounts.insert balance u users ≡ some users'
      → Added balance u users users'
  unfolding Accounts.insert
  insert-Added balance u users users' h = record {
    appended = ground arith;
    fresh =
        any_less (λ o. o.id == u.id) (λ o. str_eq o.username u.username || has_email u.email o)
          users (ground arith);
  }

not-is_some : {A : Type 0} (m : Option A) → not (is_some m) ≡ true → m ≡ none
not-is_some none h = refl
not-is_some (some a) h = absurd (ground arith)

module _ {Decimal : Type 0} (env : Env Decimal) where
  -- A new user with a password
  pub create_account_with_password-Added :
      (p : NewAccount) (db db' : Db Decimal) (o o' : Outside) (answer : Response Session)
      → create_account_with_password env p db o ≡ (ok (answer, db'), o')
      → (id : ℕ) × (hash : String) × (s : Session) × Added env.zero
          (password_user env id p hash)
          db.users
          db'.users
        × (issue_session env.sessions id db.sessions ≡ ok (s, db'.sessions))
        × (get_user env.to_lowercase p.username db.users ≡ none)
        × (get_email p.email db.users ≡ none)
        × (db'.user_backup_codes ≡ db.user_backup_codes)
  unfolding create_account_with_password insert
  create_account_with_password-Added p db db' o o' answer h =
      let (_, f1, h1) = lift-ok (validated (env.validate_account p)) _ h in
      let (passed, f2, h2) = lift-ok (env.captcha p.challenge) _ h1 in
      let (f3, h3) = check-ok passed _ _ h2 in
      let (f4, h4) =
        check-ok (not (is_some (get_user env.to_lowercase p.username db.users))) _ _ h3 in
      let (id, f5, h5) = some_or-ok (env.new_user_id db.users) _ _ h4 in
      let (hash, o6, f6, h6) =
        resume-ok (strong_hash env p.password (p.username ∷ p.email ∷ []) o) _ h5 in
      let (f7, h7) = check-ok (not (is_some (get_email p.email db.users))) _ _ h6 in
      let put =
        insert {E = ApiError} (confirm_email id p.email) (hours 24) env.random_flow env.sessions.now
          o6 in
      let (_, o8, f8, h8) =
        resume-ok (send_email_verify ApiError.mail env p.email env.random_flow put.1) _ h7 in
      let (users, f9, h9) =
        some_or-ok (Accounts.insert env.zero (password_user env id p hash) db.users) _ _ h8 in
      let (issued, f10, h10) = as_api-ok (issue_session env.sessions id db.sessions) _ h9 in
      let (_, o11, f11, h11) = resume-ok (sign_up env p.sign_up_newsletter p.email o8) _ h10 in
      let made : Db Decimal = record db { users = users; sessions = issued.1 } in
      let tables : made ≡ db' = tables-ok (json issued.0) answer made db' h11 in
      (
        id,
        hash,
        issued.0,
        insert-Added env.zero (password_user env id p hash) db.users db'.users
            (f9 ∙ ap (λ (x : Db Decimal). some x.users) tables),
        f10 ∙ ap (λ (x : Db Decimal). ok (issued.0, x.sessions)) tables,
        not-is_some (get_user env.to_lowercase p.username db.users) f4,
        not-is_some (get_email p.email db.users) f7,
        sym (ap (λ (x : Db Decimal). x.user_backup_codes) tables),
      )

module _ {Decimal : Type 0} (env : Env Decimal) (site : Site) where
  pair-ok :
      {A : Type 0} (a b : A) {o o' : Outside}
      → ◌≡◌ {A = Result AuthenticationError A × Outside} (ok a, o) (ok b, o')
      → a ≡ b
  pair-ok a b h = ground arith

  pub create_account-Added :
      (p : AuthProvider) (t : TempUser) (users : List (DbUser Decimal))
      (made : ℕ × List (DbUser Decimal)) (o o' : Outside)
      → create_account env site.to_string site.upload site.rounds p t users o ≡ (ok made, o')
      → (username : String) × (avatar_url : Option String) × Added env.zero
          (site_user env site.to_string site.upload p made.0 username avatar_url t)
          users
          made.1
  unfolding create_account
  create_account-Added p t users made o o' h =
      let (f1, h1) =
        check-ok (not (known_email env site.to_string site.upload t.email users)) _ _ h in
      let (id, f2, h2) = some_or-ok (env.new_user_id users) _ _ h1 in
      let (username, f3, h3) =
        some_or-ok (free_username env site.to_string site.upload site.rounds t.username 0 users) _ _
          h2 in
      let (avatar_url, f4, h4) =
        lift-ok (uploaded env site.to_string site.upload id t.avatar_url) _ h3 in
      let (f5, h5) = check-ok (is_account env site.to_string site.upload p t.id) _ _ h4 in
      let row = site_user env site.to_string site.upload p id username avatar_url t in
      let (users', f6, h6) = some_or-ok (Accounts.insert env.zero row users) _ _ h5 in
      let same : (id, users') ≡ made = pair-ok (id, users') made h6 in
      (
        username,
        avatar_url,
        subst
            (λ x.
              Added env.zero (site_user env site.to_string site.upload p x.0 username avatar_url t)
                users x.1)
            same (insert-Added env.zero row users users' f6),
      )
