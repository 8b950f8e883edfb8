-- ===== src/Auth/Flows/Changes.antt =====
-- What the calls change in the tables that open no session.
use labrinth.Base.{
  ℕ, String, ◌≡◌, refl, Bool, true, false, not, ◌&&◌, none, some, List, any, ok, arith, ◌==◌,
  Result,
}
use labrinth.Flags.{Bitflags}
use labrinth.Users.{DbUser}
use labrinth.Api.{ApiError, Response}
use labrinth.Teams.Routes.{Auth, current_user}
use labrinth.Auth.Flows.{
  Outside, check, pure, Db, Env, BearerAuth, get, remove, bearer, resume, Action, bad_credentials,
}
use labrinth.Scopes
use labrinth.Auth.Flows.Accounts.{update, get_id, delete_codes, same_text}
use labrinth.Auth.Flows.Providers.{and_then}
use labrinth.Auth.Flows.Codes.{validate_2fa_code, new_codes}
use labrinth.Auth.Flows.Mails.{notify}
use labrinth.Auth.Flows.Login.{LoginTwoFactor}
use labrinth.Auth.Flows.TwoFactor.{secret_flow, finish_2fa_flow, remove_2fa}
use labrinth.Auth.Flows.Email.{email_flow, confirm, validated, set_email, verify_email}
use labrinth.Auth.Flows.Runs.{resume-ok, lift-ok, as_api-ok, some_or-ok, check-ok}
use labrinth.Auth.Flows.LoginKept.{HasLogin}

-- The row of one user changes, in columns other than the id and the ways to log in.
pub record Harmless {Decimal : Type 0} (db db' : Db Decimal) : Type 0 where
  pub change : DbUser Decimal → DbUser Decimal
  pub user_id : ℕ
  pub updated : db'.users ≡ update change user_id db.users
  pub same_id : (r : DbUser Decimal) → (change r).id ≡ r.id
  pub same_logins : (r : DbUser Decimal) → HasLogin r → HasLogin (change r)
  pub same_sessions : db'.sessions ≡ db.sessions

checked :
    {E A B : Type 0} (t : Bool) (e : E) (a : A) (f : A → Action E B) {o : Outside} {b : B}
    {o' : Outside}
    → resume (resume (check t e o) (λ _. pure a)) f ≡ (ok b, o')
    → (t ≡ true) × (f a o ≡ (ok b, o'))
checked true e a f h = (refl, h)
checked false e a f h = absurd (ground arith)

module _ {Decimal : Type 0} (env : Env Decimal) where
  pub set_email-Harmless :
      (auth : Auth Decimal) (email : String) (db db' : Db Decimal) (o o' : Outside)
      (answer : Response (Unit {0}))
      → set_email env auth email db o ≡ (ok (answer, db'), o')
      → Harmless db db'
  unfolding set_email
  set_email-Harmless auth email db db' o o' answer h =
      let (_, f1, h1) = lift-ok (validated (env.validate_email email)) _ h in
      let (user, f2, h2) = lift-ok (current_user auth) _ h1 in
      let (f3, h3) =
        check-ok (not (any (λ o. not (o.id == user.id) && same_text o.email email) db.users)) _ _
          h2 in
      let (_, o4, f4, h4) =
        resume-ok (notify ApiError.mail env user.email "Email changed" o) _ h3 in
      let (_, o5, f5, h5) = resume-ok (confirm env user.id email o4) _ h4 in
      record {
        change = λ u. record u { email = some email; email_verified = false };
        user_id = user.id;
        updated = ground arith;
        same_id = λ r. refl;
        same_logins = λ r l. l;
        same_sessions = ground arith;
      }

  pub verify_email-Harmless :
      (text : String) (db db' : Db Decimal) (o o' : Outside) (answer : Response (Unit {0}))
      → verify_email env text db o ≡ (ok (answer, db'), o')
      → Harmless db db'
  unfolding verify_email remove
  verify_email-Harmless text db db' o o' answer h =
      let (flow, f1, h1) =
        some_or-ok (and_then (get text env.sessions.now o.flows) email_flow) _ _ h in
      let (user, f2, h2) = some_or-ok (get_id env.to_lowercase flow.0 db.users) _ _ h1 in
      let (f3, h3) = check-ok (same_text user.email flow.1) _ _ h2 in
      record {
        change = λ u. record u { email_verified = true };
        user_id = user.id;
        updated = ground arith;
        same_id = λ r. refl;
        same_logins = λ r l. l;
        same_sessions = ground arith;
      }

  module _ (flags : Bitflags) where
    pub finish_2fa_flow-Harmless :
        (auth : Auth Decimal) (login : LoginTwoFactor) (db db' : Db Decimal) (o o' : Outside)
        (answer : Response (List (List ℕ)))
        → finish_2fa_flow flags env auth login db o ≡ (ok (answer, db'), o')
        → Harmless db db'
    unfolding finish_2fa_flow remove
    finish_2fa_flow-Harmless auth login db db' o o' answer h =
        let (flow, f1, h1) = some_or-ok (get login.flow env.sessions.now o.flows) _ _ h in
        let (init, f2, h2) = some_or-ok (secret_flow flow) _ _ h1 in
        let (user, f3, h3) = lift-ok (current_user auth) _ h2 in
        let (f4, h4) = check-ok (user.id == init.0) _ _ h3 in
        let (valid, f5, h5) =
          as_api-ok
            (validate_2fa_code env.generate_current login.code init.1 false user.id
              db.user_backup_codes)
            _ h4 in
        let (f6, h6) = check-ok valid.0 _ _ h5 in
        let (codes, f7, h7) =
          some_or-ok (new_codes env.gen_range 6 0 init.0 (delete_codes init.0 valid.1)) _ _ h6 in
        let (_, o8, f8, h8) =
          resume-ok
            (notify ApiError.mail env user.email "Two-factor authentication enabled"
              (remove {E = ApiError} login.flow o).1)
            _ h7 in
        record {
          change = λ u. record u { totp_secret = some init.1 };
          user_id = init.0;
          updated = ground arith;
          same_id = λ r. refl;
          same_logins = λ r l. l;
          same_sessions = ground arith;
        }

    -- What the token of `bearer` has.
    pub bearer-ok :
        {B : Type 0} (auth : BearerAuth Decimal) (f : DbUser Decimal → Action ApiError B)
        {o : Outside} {b : B} {o' : Outside}
        → resume (bearer flags auth o) f ≡ (ok b, o')
        → (scopes : ℕ) × (user : DbUser Decimal) × (auth ≡ ok (some (scopes, user)))
          × (flags.contains scopes Scopes.user_auth_write ≡ true)
          × (f user o ≡ (ok b, o'))
    bearer-ok (Result.err e) f h = absurd (ground arith)
    bearer-ok (ok none) f h = absurd (ground arith)
    bearer-ok (ok (some (scopes, user))) f h =
        let (e, k) =
          checked (flags.contains scopes Scopes.user_auth_write) bad_credentials user f h in
        (scopes, user, refl, e, k)

    pub remove_2fa-Harmless :
        (auth : BearerAuth Decimal) (code : String) (db db' : Db Decimal) (o o' : Outside)
        (answer : Response (Unit {0}))
        → remove_2fa flags env auth code db o ≡ (ok (answer, db'), o')
        → Harmless db db'
    unfolding remove_2fa
    remove_2fa-Harmless auth code db db' o o' answer h =
        let (scopes, user, f1, f2, h1) = bearer-ok auth _ h in
        let (secret, f3, h2) = some_or-ok user.totp_secret _ _ h1 in
        let (valid, f4, h3) =
          as_api-ok
            (validate_2fa_code env.generate_current code secret true user.id db.user_backup_codes) _
            h2 in
        let (f5, h4) = check-ok valid.0 _ _ h3 in
        let (_, o6, f6, h5) =
          resume-ok (notify ApiError.mail env user.email "Two-factor authentication removed" o) _
            h4 in
        record {
          change = λ u. record u { totp_secret = none };
          user_id = user.id;
          updated = ground arith;
          same_id = λ r. refl;
          same_logins = λ r l. l;
          same_sessions = ground arith;
        }
