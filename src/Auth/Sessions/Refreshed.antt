-- ===== src/Auth/Sessions/Refreshed.antt =====
-- What a refresh of a session needs, and what it leaves.
use labrinth.Base.{
  ℕ, ◌≤◌, String, ◌≡◌, inl, inr, refl, sym, ap, ◌∙◌, true, not, ◌&&◌, none, some, List, ltb, ◌==◌,
  Result, ok, err, ok_or, guard, arith, bind-ok, ok_or-ok, Result-cases,
}
use labrinth.Flags.{Bitflags}
use labrinth.Users.{DbUser, User}
use labrinth.Api.{AuthenticationError, authentication, invalid_credentials, json}
use labrinth.Auth.Tokens.{Session}
use labrinth.Auth.Validate.{
  Backend, Request, TokenKind, token_kind, check_record, get_user_record_from_bearer_token,
  get_user_from_headers,
}
use labrinth.Auth.Validate.Grants.{authenticated-Granted, Granted}
use labrinth.Queue.Auth.{AuthQueue, remove_session}
use labrinth.Auth.Sessions.{Env, get, issue_session, as_api, refresh}

as_api-ok : {A : Type 0} (r : Result AuthenticationError A) (a : A) → as_api r ≡ ok a → r ≡ ok a
as_api-ok (ok x) a h = ground arith
as_api-ok (err e) a h = absurd (ground arith)

module _ {Decimal : Type 0} (flags : Bitflags) (b : Backend Decimal) (req : Request)
    (q : AuthQueue) where
  from_header :
      (token : String)
      → req.authorization ≡ some (some token)
      → get_user_record_from_bearer_token b req none q
        ≡ get_user_record_from_bearer_token b req (some token) q
  unfolding get_user_record_from_bearer_token
  from_header token header = rw header refl

  -- A user that was found in the header comes from the token that stands there.
  authenticated :
      (scopes : ℕ) (user : User Decimal)
      → (get_user_from_headers flags b req none q).0 ≡ ok (scopes, user)
      → (s : ℕ) × (row : DbUser Decimal) × (q' : AuthQueue) × (get_user_record_from_bearer_token b
            req none q
          ≡ ok (some (s, row), q'))
  unfolding get_user_from_headers check_record
  authenticated scopes user h =
      elim (Result-cases (get_user_record_from_bearer_token b req none q)) [
        | inr (x, e) ↦ absurd (ground arith)
        | inl ((none, q'), e) ↦ absurd (ground arith)
        | inl ((some (s, row), q'), e) ↦ (s, row, q', e)
      ]

  refresh_cases :
      (env : Env) (scopes : ℕ) (user : User Decimal) (token : String) (new : Session)
      (rows rows' : List Session)
      → refresh env (ok (scopes, user)) (some token) rows ≡ ok (json new, rows')
      → (s : Session) × (get token rows ≡ some s)
        × ((user.id == s.user_id && not (ltb s.refresh_expires env.now)) ≡ true)
        × (issue_session env s.user_id (remove_session s.id rows) ≡ ok (new, rows'))
  unfolding refresh
  refresh_cases env scopes user token new rows rows' h =
      let (s, found, h1) =
        bind-ok (ok_or (get token rows) (authentication invalid_credentials)) _ (json new, rows')
          h in
      let (_, may, h2) =
        bind-ok (guard (user.id == s.user_id && not (ltb s.refresh_expires env.now)) _) _
          (json new, rows') h1 in
      let ((n, r), issued, h3) =
        bind-ok (as_api (issue_session env s.user_id (remove_session s.id rows))) _
          (json new, rows') h2 in
      let same : ◌≡◌ {A = Session × List Session} (n, r) (new, rows') = ground arith in
      (s, ok_or-ok (get token rows) _ s found, ground arith, as_api-ok _ (n, r) issued ∙ ap ok same)

  -- A refresh that succeeds, with a session in the header, removes this session and issues one to
  -- the same user, who is the one that the session authenticates. The session had not expired by
  -- `expires` either: the longer time to refresh gives nothing, since the session must authenticate
  -- the call. The condition is that the lookup of sessions reads the table.
  pub refresh_unexpired :
      (env : Env) (scopes : ℕ) (user : User Decimal) (token : String) (new : Session)
      (rows rows' : List Session)
      → req.authorization ≡ some (some token)
      → token_kind token ≡ TokenKind.session
      → b.get_session token ≡ ok (get token rows)
      → (get_user_from_headers flags b req none q).0 ≡ ok (scopes, user)
      → refresh env (ok (scopes, user)) (some token) rows ≡ ok (json new, rows')
      → (s : Session) × (get token rows ≡ some s)
        × (user.id ≡ s.user_id)
        × (b.now ≤ s.expires)
        × (env.now ≤ s.refresh_expires)
        × (issue_session env s.user_id (remove_session s.id rows) ≡ ok (new, rows'))
  refresh_unexpired env scopes user token new rows rows' header kind table login h =
      let (s, found, may, issued) = refresh_cases env scopes user token new rows rows' h in
      let (scopes', row, q', record_found) = authenticated scopes user login in
      let granted =
        authenticated-Granted b req token q q' scopes' row
          (sym (from_header token header) ∙ record_found) in
      let (g, has, fresh, _, _) : Granted b TokenKind.session token scopes' row =
        rw kind at granted in
      let same : g ≡ s = ground (arith, sym has ∙ table ∙ ap ok found) in
      (s, found, ground arith, rw same at fresh, ground arith, issued)
