-- ===== src/Auth/Validate/Grants.antt =====
-- When a token authenticates a user, and with which scopes.
use labrinth.Base.{ℕ, ◌≤◌, ◌≡◌, inl, inr, String, some, arith, ok, Result-cases, Option-cases}
use labrinth.Scopes
use labrinth.Users.{DbUser}
use labrinth.Auth.Tokens.{Session, PersonalAccessToken}
use labrinth.Queue.Auth.{AuthQueue, add_pat}
use labrinth.Auth.Validate.{
  Request, Backend, TokenKind, pat, session, github_token, unknown, token_kind, authenticate_pat,
  authenticate_session, authenticate_github, authenticate, get_user_record_from_bearer_token,
  get_user,
}
use labrinth.Auth.Flows.ById.{IsUser, get_id-IsUser}

module _ {Decimal : Type 0} (b : Backend Decimal) where
  open b use {
    get_pat, get_session, users, user_query, to_lowercase, github_account, github_user_id, now,
  }

  -- The lookup finds this user: a row that has the id, or a name that is the text of the id.
  abbrev Found : ℕ → DbUser Decimal → Type 0
  Found id user = (get_user b id ≡ ok (some user)) × IsUser to_lowercase id users user

  pub get_user-Found :
      (id : ℕ) (user : DbUser Decimal) → get_user b id ≡ ok (some user) → Found id user
  get_user-Found id user h = elim (Result-cases user_query) [
    | inr (x, e) ↦ absurd (ground arith)
    | inl (done, e) ↦ (h, get_id-IsUser to_lowercase id users user (ground arith))
  ]

  -- A personal access token that has not expired: its own scopes.
  abbrev pub GrantedByPat : String → ℕ → DbUser Decimal → Type 0
  GrantedByPat token scopes user =
      (p : PersonalAccessToken) × (get_pat token ≡ ok (some p))
      × (now ≤ p.expires)
      × Found p.user_id user
      × (scopes ≡ p.scopes)

  -- A session that has not expired: all scopes.
  abbrev pub GrantedBySession : String → ℕ → DbUser Decimal → Type 0
  GrantedBySession token scopes user =
      (s : Session) × (get_session token ≡ ok (some s))
      × (now ≤ s.expires)
      × Found s.user_id user
      × (scopes ≡ Scopes.all)

  -- A token that GitHub knows, of an account that is linked to a user.
  abbrev pub GrantedByGithub : String → ℕ → DbUser Decimal → Type 0
  GrantedByGithub token scopes user =
      (account : String) × (id : ℕ) × (github_account token ≡ ok account)
      × (github_user_id account ≡ ok (some id))
      × Found id user
      × (scopes ≡ Scopes.not_restricted)

  -- By the kind of the token.
  abbrev pub Granted : TokenKind → String → ℕ → DbUser Decimal → Type 0
  Granted pat token scopes user = GrantedByPat token scopes user
  Granted session token scopes user = GrantedBySession token scopes user
  Granted github_token token scopes user = GrantedByGithub token scopes user
  Granted unknown token scopes user = ⊥

  pat-Granted :
      (token : String) (q q' : AuthQueue) (scopes : ℕ) (user : DbUser Decimal)
      → authenticate_pat b token q ≡ ok (some (scopes, user), q')
      → GrantedByPat token scopes user
  unfolding authenticate_pat
  pat-Granted token q q' scopes user h = elim (Result-cases (get_pat token)) [
    | inr (x, e) ↦ absurd (ground arith)
    | inl (o, e) ↦ elim (Option-cases o) [
      | inl f ↦ absurd (ground arith)
      | inr (p, f) ↦ elim (Result-cases (get_user b p.user_id)) [
        | inr (x, g) ↦ absurd (ground arith)
        | inl (u, g) ↦ (
          p,
          ground arith,
          ground arith,
          get_user-Found p.user_id user (ground arith),
          ground arith,
        )
      ]
    ]
  ]

  session-Granted :
      (req : Request) (token : String) (q q' : AuthQueue) (scopes : ℕ) (user : DbUser Decimal)
      → authenticate_session b req token q ≡ ok (some (scopes, user), q')
      → GrantedBySession token scopes user
  unfolding authenticate_session
  session-Granted req token q q' scopes user h = elim (Result-cases (get_session token)) [
    | inr (x, e) ↦ absurd (ground arith)
    | inl (o, e) ↦ elim (Option-cases o) [
      | inl f ↦ absurd (ground arith)
      | inr (s, f) ↦ elim (Result-cases (get_user b s.user_id)) [
        | inr (x, g) ↦ absurd (ground arith)
        | inl (u, g) ↦ (
          s,
          ground arith,
          ground arith,
          get_user-Found s.user_id user (ground arith),
          ground arith,
        )
      ]
    ]
  ]

  github-Granted :
      (token : String) (q q' : AuthQueue) (scopes : ℕ) (user : DbUser Decimal)
      → authenticate_github b token q ≡ ok (some (scopes, user), q')
      → GrantedByGithub token scopes user
  unfolding authenticate_github
  github-Granted token q q' scopes user h = elim (Result-cases (github_account token)) [
    | inr (x, e) ↦ absurd (ground arith)
    | inl (account, e) ↦ elim (Result-cases (github_user_id account)) [
      | inr (x, f) ↦ absurd (ground arith)
      | inl (o, f) ↦ elim (Option-cases o) [
        | inl g ↦ absurd (ground arith)
        | inr (id, g) ↦
            (account, id, e, ground arith, get_user-Found id user (ground arith), ground arith)
      ]
    ]
  ]

  -- A token that authenticates a user is, by its kind, one for which the lookup of personal access
  -- tokens or of sessions gives a row that has not expired, or one of a GitHub account for which the
  -- lookup of accounts gives a user id. The user is what `User::get_id` finds for the id that this
  -- row or account names: a row of the table of users that has this id, or one whose name is the text
  -- of this id. The scopes are those of the personal access token, all scopes for a session, and
  -- those of `NOT_RESTRICTED` for a GitHub token.
  pub authenticated-Granted :
      (req : Request) (token : String) (q q' : AuthQueue) (scopes : ℕ) (user : DbUser Decimal)
      → get_user_record_from_bearer_token b req (some token) q ≡ ok (some (scopes, user), q')
      → Granted (token_kind token) token scopes user
  authenticated-Granted req token q q' scopes user h =
      by_kind (token_kind token) (unfold get_user_record_from_bearer_token in h)
    where
      by_kind :
          (kind : TokenKind)
          → authenticate b kind req token q ≡ ok (some (scopes, user), q')
          → Granted kind token scopes user
      by_kind pat g = pat-Granted token q q' scopes user g
      by_kind session g = session-Granted req token q q' scopes user g
      by_kind github_token g = github-Granted token q q' scopes user g
      by_kind unknown g = cc

  authenticate_pat_granted :
      (token : String) (q : AuthQueue) (scopes : ℕ) (user : DbUser Decimal)
      (granted : GrantedByPat token scopes user)
      → authenticate_pat b token q ≡ ok (some (scopes, user), add_pat granted.0.id q)
  unfolding authenticate_pat
  authenticate_pat_granted token q scopes user (p, row, fresh, found, same) = ground arith

  -- A personal access token that has not expired authenticates its user with its own scopes, and
  -- its use is queued.
  pub pat_authenticates :
      (req : Request) (token : String) (q : AuthQueue) (scopes : ℕ) (user : DbUser Decimal)
      (granted : GrantedByPat token scopes user)
      → token_kind token ≡ pat
      → get_user_record_from_bearer_token b req (some token) q
        ≡ ok (some (scopes, user), add_pat granted.0.id q)
  pat_authenticates req token q scopes user granted kind =
      unfold get_user_record_from_bearer_token in
      rw kind (authenticate_pat_granted token q scopes user granted)
