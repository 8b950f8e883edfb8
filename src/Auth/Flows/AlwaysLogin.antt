-- ===== src/Auth/Flows/AlwaysLogin.antt =====
-- The ways to log in that users have, over the calls of src/auth/flows.rs.
use mathlib.Core.List.{Memᴰ}
use labrinth.Base.{
  ℕ, String, ◌≡◌, refl, sym, ap, Bool, true, ◌||◌, Option, none, some, List, [], ◌∷◌, ◌++◌, find,
  ok, arith, ◌==◌, inl, inr, Bool-cases, All, count_if-append, count_if-any-false,
}
use labrinth.Flags.{Bitflags}
use labrinth.Users.{AuthProvider, github, discord, microsoft, gitlab, google, steam, DbUser}
use labrinth.Api.{ApiError, Response, no_content}
use labrinth.Auth.Validate.{private_user}
use labrinth.Auth.Flows.{Outside, Db, Env, BearerAuth}
use labrinth.Auth.Flows.Accounts.{update, get_id, with_defaults, reads_as}
use labrinth.Auth.Flows.Mails.{notify}
use labrinth.Auth.Flows.Providers.{set_account, update_user_id}
use labrinth.Auth.Flows.Creation.{TempUser, password_user, site_user}
use labrinth.Auth.Flows.TwoFactor.{or_false}
use labrinth.Auth.Flows.Linking.{several, delete_auth_provider}
use labrinth.Auth.Flows.Runs.{resume-ok, check-ok, tables-ok}
use labrinth.Auth.Flows.LoginKept.{
  HasLogin, LoginKept, update-LoginKept, update_own, removed-HasLogin, linked-HasLogin,
}
use labrinth.Auth.Flows.FirstFactor.{login_password-users}
use labrinth.Auth.Flows.SecondFactor.{login_2fa-users}
use labrinth.Auth.Flows.OAuth.{Site}
use labrinth.Auth.Flows.Password.{ChangePassword, change_password}
use labrinth.Auth.Flows.Changes.{
  Harmless, set_email-Harmless, verify_email-Harmless, finish_2fa_flow-Harmless,
  remove_2fa-Harmless,
}
use labrinth.Auth.Flows.Entry.{Added, create_account_with_password-Added}
use labrinth.Auth.Flows.Callback.{
  CameBack, linked_to, asked, entered, created, auth_callback-CameBack,
}
use labrinth.Auth.Flows.Hashes.{NewHash, removed}
use labrinth.Auth.Flows.Passwords.{by_flow, by_token, change_password-Authorised}
use labrinth.Auth.Flows.Steps.{
  Step, create, log_in, enter_code, finish_2fa, drop_2fa, change, move_email, confirm, unlink,
  come_back, Reach, here, next,
}

module _ {Decimal : Type 0} where
  All-append :
      (P : DbUser Decimal → Type 0) (us vs : List (DbUser Decimal))
      → All P us
      → All P vs
      → All P (us ++ vs)
  All-append P [] vs h k = k
  All-append P (u ∷ us) vs (h, rest) k = (h, All-append P us vs rest k)

  Added-LoginKept :
      (balance : Decimal) (u : DbUser Decimal) (users users' : List (DbUser Decimal))
      → Added balance u users users'
      → HasLogin u
      → LoginKept users
      → LoginKept users'
  Added-LoginKept balance u users users' added h (all, one) = rw added.appended (
    All-append HasLogin users (with_defaults balance u ∷ []) all (h, tt),
    λ i. ground (
      arith,
      one i,
      count_if-append (λ x. x.id == i) users (with_defaults balance u ∷ []),
      count_if-any-false (λ x. x.id == u.id) users added.fresh,
    ),
  )

  Harmless-LoginKept :
      {db db' : Db Decimal} → Harmless db db' → LoginKept db.users → LoginKept db'.users
  Harmless-LoginKept {db} {db'} h kept =
      rw h.updated
        (update-LoginKept h.change h.user_id db.users h.same_id (λ r there e. h.same_logins r) kept)

  -- A row that is found is in the table.
  pub find-Memᴰ :
      (p : DbUser Decimal → Bool) (u : DbUser Decimal) (users : List (DbUser Decimal))
      → find p users ≡ some u
      → Memᴰ u users × (p u ≡ true)
  find-Memᴰ p u [] h = absurd (ground arith)
  find-Memᴰ p u (r ∷ users) h = elim (Bool-cases (p r)) [
    | inl e ↦ let it : r ≡ u = ground arith in (Memᴰ.head (sym it), rw (sym it) e)
    | inr e ↦ let (there, yes_p) = find-Memᴰ p u users (ground arith) in (Memᴰ.tail there, yes_p)
  ]

  pub set_account-id :
      (parse_i64 : String → Option ℕ) (p : AuthProvider) (id : Option String) (r : DbUser Decimal)
      → (set_account parse_i64 p id r).id ≡ r.id
  unfolding set_account
  set_account-id parse_i64 github id r = refl
  set_account-id parse_i64 discord id r = refl
  set_account-id parse_i64 microsoft id r = refl
  set_account-id parse_i64 gitlab id r = refl
  set_account-id parse_i64 google id r = refl
  set_account-id parse_i64 steam id r = refl

module _ {Decimal : Type 0} (env : Env Decimal) where
  pub unlinked :
      (scopes : ℕ) (u : DbUser Decimal) (p : AuthProvider) (db db' : Db Decimal) (o o' : Outside)
      (answer : Response (Unit {0}))
      → delete_auth_provider env (ok (scopes, private_user u)) p db o ≡ (ok (answer, db'), o')
      → ((several (private_user u).auth_providers || or_false (private_user u).has_password) ≡ true)
        × (db' ≡ record db { users = update (set_account env.parse_i64 p none) u.id db.users })
  unfolding delete_auth_provider update_user_id private_user
  unlinked scopes u p db db' o o' answer h =
      let (f1, h1) =
        check-ok (several (private_user u).auth_providers || or_false (private_user u).has_password)
          _ _ h in
      let (_, o2, f2, h2) =
        resume-ok (notify ApiError.mail env u.email "Authentication method removed" o) _ h1 in
      let users = update (set_account env.parse_i64 p none) u.id db.users in
      let made : Db Decimal = record db { users = users } in
      (f1, sym (tables-ok no_content answer made db' h2))

  unlink-LoginKept :
      (scopes : ℕ) (u : DbUser Decimal) (p : AuthProvider) (db db' : Db Decimal) (o o' : Outside)
      (answer : Response (Unit {0}))
      → Memᴰ u db.users
      → delete_auth_provider env (ok (scopes, private_user u)) p db o ≡ (ok (answer, db'), o')
      → LoginKept db.users
      → LoginKept db'.users
  unlink-LoginKept scopes u p db db' o o' answer there h kept =
      let (several_left, tables) = unlinked scopes u p db db' o o' answer h in
      rw (ap (λ (x : Db Decimal). x.users) tables) (
        update_own (set_account env.parse_i64 p none) u db.users
          (set_account-id env.parse_i64 p none) there
          (λ l. removed-HasLogin env.parse_i64 p u several_left) kept)

  come_back-LoginKept :
      (site : Site) (to : Option ℕ) (p : AuthProvider) (t : TempUser) (db db' : Db Decimal)
      (o' : Outside)
      → CameBack env site to p t db db' o'
      → LoginKept db.users
      → LoginKept db'.users
  unfolding update_user_id
  come_back-LoginKept site to p t db db' o' (linked_to id mine account free set same) kept =
      rw set (
        update-LoginKept (set_account env.parse_i64 p (some t.id)) id db.users
          (set_account-id env.parse_i64 p (some t.id))
          (λ r there e h. linked-HasLogin env.parse_i64 p t.id r account) kept)
  come_back-LoginKept site to p t db db' o'
        (asked id user secret none_to owns found is_user has same put) kept =
      rw same kept
  come_back-LoginKept site to p t db db' o'
        (entered id user s none_to owns found is_user has run same) kept =
      rw same kept
  come_back-LoginKept site to p t db db' o'
        (created id username avatar_url s none_to account free added run) kept =
      Added-LoginKept env.zero (site_user env site.to_string site.upload p id username avatar_url t)
        db.users db'.users added (linked-HasLogin env.parse_i64 p t.id _ account) kept

  NewHash-HasLogin :
      (flags : Bitflags) (p : ChangePassword) (user : DbUser Decimal) (hash : Option String)
      → NewHash flags env p user hash
      → HasLogin (record user { password = hash })
  NewHash-HasLogin flags p user (some hash) new_hash = refl
  NewHash-HasLogin flags p user none (removed given provider) = provider

  change-LoginKept :
      (flags : Bitflags) (auth : BearerAuth Decimal) (p : ChangePassword) (db db' : Db Decimal)
      (o o' : Outside) (answer : Response (Unit {0}))
      → ((scopes : ℕ) (u : DbUser Decimal) → auth ≡ ok (some (scopes, u)) → Memᴰ u db.users)
      → change_password env flags auth p db o ≡ (ok (answer, db'), o')
      → LoginKept db.users
      → LoginKept db'.users
  unfolding get_id
  change-LoginKept flags auth p db db' o o' answer own h kept =
      let (user, hash, by, new_hash, updated, same) =
        change_password-Authorised flags env auth p db db' o o' answer h in
      let there : Memᴰ user db.users = elim by [
        | by_flow text id given live found gone ↦
            (find-Memᴰ (λ u. u.id == id || reads_as env.to_lowercase id u) user db.users found).0
        | by_token scopes auth_ok scope knows ↦ own scopes user auth_ok
      ] in
      rw updated (
        update_own (λ u. record u { password = hash }) user db.users (λ r. refl) there
          (λ l. NewHash-HasLogin flags p user hash new_hash) kept)

module _ {Decimal : Type 0} (flags : Bitflags) where
  Step-LoginKept :
      (env : Env Decimal) {db db' : Db Decimal} {o o' : Outside}
      → Step flags env db db' o o'
      → LoginKept db.users
      → LoginKept db'.users
  Step-LoginKept env {db} {db'} {o} {o'} (create p answer h) kept =
      let (id, hash, s, added, run, name, email, codes) =
        create_account_with_password-Added env p db db' o o' answer h in
      Added-LoginKept env.zero (password_user env id p hash) db.users db'.users added refl kept
  Step-LoginKept env {db} {db'} {o} {o'} (log_in login answer h) kept =
      let same : db'.users ≡ db.users = login_password-users env login db db' o o' answer h in
      rw same kept
  Step-LoginKept env {db} {db'} {o} {o'} (enter_code login answer h) kept =
      let same : db'.users ≡ db.users = login_2fa-users env login db db' o o' answer h in
      rw same kept
  Step-LoginKept env {db} {db'} {o} {o'} (finish_2fa auth login answer h) kept =
      Harmless-LoginKept (finish_2fa_flow-Harmless env flags auth login db db' o o' answer h) kept
  Step-LoginKept env {db} {db'} {o} {o'} (drop_2fa auth code answer h) kept =
      Harmless-LoginKept (remove_2fa-Harmless env flags auth code db db' o o' answer h) kept
  Step-LoginKept env {db} {db'} {o} {o'} (change auth p answer own h) kept =
      change-LoginKept env flags auth p db db' o o' answer own h kept
  Step-LoginKept env {db} {db'} {o} {o'} (move_email auth email answer h) kept =
      Harmless-LoginKept (set_email-Harmless env auth email db db' o o' answer h) kept
  Step-LoginKept env {db} {db'} {o} {o'} (confirm text answer h) kept =
      Harmless-LoginKept (verify_email-Harmless env text db db' o o' answer h) kept
  Step-LoginKept env {db} {db'} {o} {o'} (unlink scopes u p answer there h) kept =
      unlink-LoginKept env scopes u p db db' o o' answer there h kept
  Step-LoginKept env {db} {db'} {o} {o'} (come_back site state answer h) kept =
      let (to, url, p, t, live, describes, back) =
        auth_callback-CameBack env site state db db' o o' answer h in
      come_back-LoginKept env site to p t db db' o' back kept

  -- If every user has a password or the account of another site and no two users have the same id,
  -- then this holds after any number of calls of the login flows that succeed, with tokens of
  -- users in the table: creating accounts, logging in, changing or removing passwords, setting and
  -- verifying addresses, linking and removing accounts of other sites, and turning the second
  -- factor on and off.
  pub Reach-LoginKept :
      {db db' : Db Decimal} → LoginKept db.users → Reach flags db db' → LoginKept db'.users
  Reach-LoginKept kept here = kept
  Reach-LoginKept kept (next env before step) =
      Step-LoginKept env step (Reach-LoginKept kept before)
