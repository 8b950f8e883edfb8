-- ===== src/Auth/Flows/Passwords.antt =====
-- Who may change a password.
use labrinth.Base.{
  ℕ, String, ◌≡◌, refl, sym, ap, ◌∙◌, true, Option, none, some, ok, arith, Result, inl, inr, ◌⊎◌,
}
use labrinth.Flags.{Bitflags}
use labrinth.Scopes
use labrinth.Users.{DbUser}
use labrinth.Api.{ApiError, Response, json}
use labrinth.Auth.Flows.{
  Outside, Db, Env, BearerAuth, get, remove, Flow, o_auth, login2fa, initialize2fa, forgot_password,
  confirm_email, minecraft_auth,
}
use labrinth.Auth.Flows.Accounts.{get_id, update}
use labrinth.Auth.Flows.Mails.{notify, send_email}
use labrinth.Auth.Flows.Providers.{and_then}
use labrinth.Auth.Flows.Password.{
  ChangePassword, reset_user, reset_of, flow_user, check_old, changing_user, new_password_hash,
  remove_used, password_title, change_password,
}
use labrinth.Auth.Flows.Runs.{resume-ok, some_or-ok, check-ok, tables-ok, get-remove}
use labrinth.Auth.Flows.Changes.{bearer-ok}
use labrinth.Auth.Flows.Hashes.{NewHash, new_password_hash-NewHash}

module _ {Decimal : Type 0} (flags : Bitflags) (env : Env Decimal) where
  -- A flow for a forgotten password, which is used up, or a token with the scope and, where the
  -- user has a password, the old one.
  pub data Authorised (auth : BearerAuth Decimal) (p : ChangePassword) (db : Db Decimal)
      (o o' : Outside) (user : DbUser Decimal) : Type 0 where
    by_flow :
        (text : String) (id : ℕ)
        → p.flow ≡ some text
        → get text env.sessions.now o.flows ≡ some (forgot_password id)
        → get_id env.to_lowercase id db.users ≡ some user
        → ((now : ℕ) → get text now o'.flows ≡ none)
        → Authorised auth p db o o' user
    by_token :
        (scopes : ℕ)
        → auth ≡ ok (some (scopes, user))
        → flags.contains scopes Scopes.user_auth_write ≡ true
        → ((pass : String)
            → user.password ≡ some pass
            → (old : String) × (p.old_password ≡ some old) × (env.verify_password old pass ≡ true))
        → Authorised auth p db o o' user

  flow_reset : (flow : Flow) (user : ℕ) → reset_user flow ≡ some user → flow ≡ forgot_password user
  flow_reset (forgot_password u) user h = ground arith
  flow_reset (login2fa u) user h = absurd (ground arith)
  flow_reset (o_auth a b c) user h = absurd (ground arith)
  flow_reset (initialize2fa a b) user h = absurd (ground arith)
  flow_reset (confirm_email a b) user h = absurd (ground arith)
  flow_reset minecraft_auth user h = absurd (ground arith)

  and_then_reset :
      (found : Option Flow) (id : ℕ)
      → and_then found reset_user ≡ some id
      → found ≡ some (forgot_password id)
  and_then_reset none id h = absurd (ground arith)
  and_then_reset (some flow) id h = ap some (flow_reset flow id h)

  notify-flows :
      (email : Option String) (title : String) (u : Unit {0}) (o o' : Outside)
      → notify {E = ApiError} ApiError.mail env email title o ≡ (ok u, o')
      → o'.flows ≡ o.flows
  unfolding send_email
  notify-flows none title u o o' h = ground arith
  notify-flows (some email) title u o o' h = ground arith

  check_old-ok :
      (pass old_password : Option String) (u : Unit {0}) (o o' : Outside)
      → check_old env pass old_password o ≡ (ok u, o')
      → (o' ≡ o)
        × ((hash : String)
            → pass ≡ some hash
            → (old : String) × (old_password ≡ some old) × (env.verify_password old hash ≡ true))
  check_old-ok none old_password u o o' h = (ground arith, λ hash e. absurd (ground arith))
  check_old-ok (some pass) none u o o' h = absurd (ground arith)
  check_old-ok (some pass) (some old) u o o' h =
      let (f1, h1) = check-ok (env.is_hash pass) _ _ h in
      let verified : env.verify_password old pass ≡ true = ground arith in
      (
        ground arith,
        λ hash e. (old, refl, let same : pass ≡ hash = ground arith in rw (sym same) verified),
      )

  token_user :
      (auth : BearerAuth Decimal) (p : ChangePassword) (db : Db Decimal) (user : DbUser Decimal)
      (o o1 o2 o' : Outside)
      → changing_user env flags none auth p.old_password o1 ≡ (ok user, o2)
      → Authorised auth p db o o' user × (o2 ≡ o1)
  unfolding changing_user
  token_user auth p db user o o1 o2 o' h =
      let (scopes, u, f1, f2, h1) = bearer-ok env flags auth _ h in
      let (_, o3, f3, h3) = resume-ok (check_old env u.password p.old_password o1) _ h1 in
      let (same, knows) = check_old-ok u.password p.old_password _ o1 o3 f3 in
      let it : u ≡ user = ground arith in
      (
        by_token scopes (f1 ∙ ap (λ x. ok (some (scopes, x))) it) f2
            (λ pass e. knows pass (ap (λ (x : DbUser Decimal). x.password) it ∙ e)),
        ground arith,
      )

  reset_of-cases :
      (text : String) (m : Option ℕ) (db : Db Decimal) (reset : Option (DbUser Decimal))
      (o o1 : Outside)
      → and_then (get text env.sessions.now o.flows) reset_user ≡ m
      → reset_of env m db o ≡ (ok reset, o1)
      → (o1 ≡ o)
        × ((reset ≡ none)
            ⊎ ((id : ℕ) × (user : DbUser Decimal) × (get text env.sessions.now o.flows
                  ≡ some (forgot_password id))
                × (get_id env.to_lowercase id db.users ≡ some user)
                × (reset ≡ some user)))
  reset_of-cases text none db reset o o1 e h = (ground arith, inl (ground arith))
  reset_of-cases text (some id) db reset o o1 e h =
      let (user, found, h1) = some_or-ok (get_id env.to_lowercase id db.users) _ _ h in
      (ground arith, inr (id, user, and_then_reset _ id e, found, ground arith))

  flow_user-cases :
      (given : Option String) (db : Db Decimal) (reset : Option (DbUser Decimal)) (o o1 : Outside)
      → flow_user env given db o ≡ (ok reset, o1)
      → (o1 ≡ o)
        × ((reset ≡ none)
            ⊎ ((text : String) × (given ≡ some text)
                × (id : ℕ) × (user : DbUser Decimal) × (get text env.sessions.now o.flows
                    ≡ some (forgot_password id))
                × (get_id env.to_lowercase id db.users ≡ some user)
                × (reset ≡ some user)))
  unfolding flow_user
  flow_user-cases none db reset o o1 h = (ground arith, inl (ground arith))
  flow_user-cases (some text) db reset o o1 h =
      let (same, which) =
        reset_of-cases text (and_then (get text env.sessions.now o.flows) reset_user) db reset o o1
          refl h in
      (
        same,
        elim which [
          | inl e ↦ inl e
          | inr (id, user, live, found, e) ↦ inr (text, refl, id, user, live, found, e)
        ],
      )

  changing_user-Authorised :
      (auth : BearerAuth Decimal) (p : ChangePassword) (db : Db Decimal)
      (reset : Option (DbUser Decimal)) (user : DbUser Decimal) (o o1 o2 o' : Outside)
      → flow_user env p.flow db o ≡ (ok reset, o1)
      → changing_user env flags reset auth p.old_password o1 ≡ (ok user, o2)
      → ((text : String) → p.flow ≡ some text → (now : ℕ) → get text now o'.flows ≡ none)
      → Authorised auth p db o o' user × (o2 ≡ o)
  unfolding changing_user
  changing_user-Authorised auth p db reset user o o1 o2 o' f k used =
      let (same, which) = flow_user-cases p.flow db reset o o1 f in
      let runs : Option (DbUser Decimal) → Result ApiError (DbUser Decimal) × Outside =
        λ x. changing_user env flags x auth p.old_password o1 in
      elim which [
        | inl e ↦
            let (by, there) = token_user auth p db user o o1 o2 o' (sym (ap runs e) ∙ k) in
            (by, there ∙ same)
        | inr (text, given, id, u, live, found, e) ↦
            let k' : ◌≡◌ {A = Result ApiError (DbUser Decimal) × Outside} (ok u, o1) (ok user, o2) =
              sym (ap runs e) ∙ k in
            let it : u ≡ user = ground arith in
            (by_flow text id given live (found ∙ ap some it) (used text given), ground arith)
      ]

  remove_used-flows :
      (given : Option String) (u : Unit {0}) (o o' : Outside)
      → remove_used env flags given o ≡ (ok u, o')
      → (text : String) → given ≡ some text
      → (now : ℕ) → get text now o'.flows ≡ none
  unfolding remove
  remove_used-flows none u o o' h text e now = absurd (ground arith)
  remove_used-flows (some used) u o o' h text e now =
      let it : used ≡ text = ground arith in
      let same : o' ≡ (remove {E = ApiError} used o).1 = ground arith in
      rw same (rw (sym it) (get-remove ApiError used now o))

  pub change_password-Authorised :
      (auth : BearerAuth Decimal) (p : ChangePassword) (db db' : Db Decimal) (o o' : Outside)
      (answer : Response (Unit {0}))
      → change_password env flags auth p db o ≡ (ok (answer, db'), o')
      → (user : DbUser Decimal) × (hash : Option String) × Authorised auth p db o o' user
        × NewHash flags env p user hash
        × (db'.users ≡ update (λ u. record u { password = hash }) user.id db.users)
        × (db'.sessions ≡ db.sessions)
  unfolding change_password
  change_password-Authorised auth p db db' o o' answer h =
      let (reset, o1, f1, h1) = resume-ok (flow_user env p.flow db o) _ h in
      let (user, o2, f2, h2) =
        resume-ok (changing_user env flags reset auth p.old_password o1) _ h1 in
      let (hash, o3, f3, h3) =
        resume-ok (new_password_hash env flags user p.new_password o2) _ h2 in
      let (u4, o4, f4, h4) = resume-ok (remove_used env flags p.flow o3) _ h3 in
      let (u5, o5, f5, h5) =
        resume-ok (notify ApiError.mail env user.email (password_title env flags hash) o4) _ h4 in
      let made : Db Decimal = record db {
        users = update (λ u. record u { password = hash }) user.id db.users;
      } in
      let tables : made ≡ db' = tables-ok (json tt) answer made db' h5 in
      let last : o5 ≡ o' = ground arith in
      let flows : o'.flows ≡ o4.flows =
        sym (ap (λ x. x.flows) last) ∙ notify-flows user.email _ u5 o4 o5 f5 in
      let (by, same) = changing_user-Authorised auth p db reset user o o1 o2 o' f1 f2 (λ text e now.
        ap (λ x. get text now x) flows ∙ remove_used-flows p.flow u4 o3 o4 f4 text e now) in
      (
        user,
        hash,
        by,
        (new_password_hash-NewHash flags env p user p.new_password hash o2 o3 refl f3).0,
        sym (ap (λ (x : Db Decimal). x.users) tables),
        sym (ap (λ (x : Db Decimal). x.sessions) tables),
      )
