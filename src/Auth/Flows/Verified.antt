-- ===== src/Auth/Flows/Verified.antt =====
-- What the verification of an address has checked.
use labrinth.Base.{ℕ, String, ◌≡◌, sym, ap, ◌∙◌, true, Option, none, some, ok, arith, eq_iff}
use labrinth.Users.{DbUser}
use labrinth.Api.{ApiError, Response, no_content}
use labrinth.Auth.Flows.{
  Outside, Db, Env, Flow, o_auth, login2fa, initialize2fa, forgot_password, confirm_email,
  minecraft_auth, get, remove,
}
use labrinth.Auth.Flows.Accounts.{get_id, update, same_text}
use labrinth.Auth.Flows.Providers.{and_then}
use labrinth.Auth.Flows.Email.{email_flow, verify_email}
use labrinth.Auth.Flows.Runs.{some_or-ok, check-ok, tables-ok, get-remove}

flow_confirms :
    (found : Option Flow) (c : ℕ × String)
    → and_then found email_flow ≡ some c
    → found ≡ some (confirm_email c.0 c.1)
flow_confirms none c h = absurd (ground arith)
flow_confirms (some (confirm_email a b)) c h = ground arith
flow_confirms (some (login2fa a)) c h = absurd (ground arith)
flow_confirms (some (o_auth a b d)) c h = absurd (ground arith)
flow_confirms (some (initialize2fa a b)) c h = absurd (ground arith)
flow_confirms (some (forgot_password a)) c h = absurd (ground arith)
flow_confirms (some minecraft_auth) c h = absurd (ground arith)

same_text→eq : (o : Option String) (text : String) → same_text o text ≡ true → o ≡ some text
same_text→eq none text h = absurd (ground arith)
same_text→eq (some s) text h = ap some ((eq_iff s text).0 h)

module _ {Decimal : Type 0} (env : Env Decimal) where
  -- A verification that is answered names a live flow, and its user has just the address that the
  -- flow was sent to: an address that was replaced is not verified. The user is marked, nothing
  -- else changes, and the flow is gone.
  pub verify_email-eq_ok :
      (text : String) (db db' : Db Decimal) (o o' : Outside) (answer : Response (Unit {0}))
      → verify_email env text db o ≡ (ok (answer, db'), o')
      → (id : ℕ) × (email : String) × (user : DbUser Decimal) × (get text env.sessions.now o.flows
          ≡ some (confirm_email id email))
        × (get_id env.to_lowercase id db.users ≡ some user)
        × (user.email ≡ some email)
        × (db' ≡ record db {
          users = update (λ u. record u { email_verified = true }) user.id db.users;
        })
        × ((now : ℕ) → get text now o'.flows ≡ none)
  unfolding verify_email remove
  verify_email-eq_ok text db db' o o' answer h =
      let (c, f1, h1) =
        some_or-ok (and_then (get text env.sessions.now o.flows) email_flow) _ _ h in
      let (user, found, h2) = some_or-ok (get_id env.to_lowercase c.0 db.users) _ _ h1 in
      let (f3, h3) = check-ok (same_text user.email c.1) _ _ h2 in
      let made : Db Decimal = record db {
        users = update (λ u. record u { email_verified = true }) user.id db.users;
      } in
      let outside : o' ≡ (remove {E = ApiError} text o).1 = ground arith in
      (
        c.0,
        c.1,
        user,
        flow_confirms (get text env.sessions.now o.flows) c f1,
        found,
        same_text→eq user.email c.1 f3,
        sym (tables-ok no_content answer made db' h3),
        λ now. ap (λ x. get text now x.flows) outside ∙ get-remove ApiError text now o,
      )
