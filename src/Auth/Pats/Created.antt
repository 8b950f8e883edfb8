-- ===== src/Auth/Pats/Created.antt =====
-- A token that was created authenticates its owner.
use labrinth.Base.{
  ℕ, ◌≤◌, String, ◌≡◌, inl, inr, refl, ap, ◌∙◌, true, false, ◌||◌, none, some, [], ◌∷◌, ◌++◌, any,
  filterb, ◌==◌, str_eq, ok, err, arith, Option-cases, Result-cases, eq_refl,
}
use labrinth.Flags.{Bitflags, from_bits}
use labrinth.Ids.{DecodingError, codes, parse_base62}
use labrinth.Users.{User, DbUser}
use labrinth.Api.{json}
use labrinth.Scopes
use labrinth.Auth.Tokens.{PersonalAccessToken}
use labrinth.Auth.Validate.{
  Backend, Request, TokenKind, split_once, token_kind, get_user_record_from_bearer_token, get_user,
}
use labrinth.Auth.Validate.Grants.{pat_authenticates, get_user-Found}
use labrinth.Queue.Auth.{AuthQueue, add_pat}
use labrinth.Auth.Pats.{
  Pats, Env, ShownToken, NewPersonalAccessToken, newest, is_named, get, insert, token_text,
  new_token, read_row, shown_token, create_pat,
}

token_kind-token_text : (text : String) → token_kind (token_text text) ≡ TokenKind.pat
unfolding token_kind split_once
token_kind-token_text text = refl

-- It is no id.
parse_base62-token_text :
    (text : String) → (e : DecodingError) × (parse_base62 (codes (token_text text)) ≡ err e)
unfolding parse_base62
parse_base62-token_text text = (_, refl)

is_named-token_text :
    (text : String) (row : PersonalAccessToken)
    → is_named (token_text text) row ≡ str_eq row.access_token (token_text text)
is_named-token_text text row = let (e, no_id) = parse_base62-token_text text in rw no_id refl

-- Only the new row has the new token.
filter_new :
    (text : String) (x : PersonalAccessToken) (rows : Pats)
    → x.access_token ≡ token_text text
    → any (λ r. r.id == x.id || str_eq r.access_token (token_text text)) rows ≡ false
    → filterb (is_named (token_text text)) (rows ++ x ∷ []) ≡ x ∷ []
filter_new text x [] same h =
    let named : is_named (token_text text) x ≡ true =
      is_named-token_text text x ∙ rw same (eq_refl (token_text text)) in
    rw named refl
filter_new text x (r ∷ rows) same h =
    let other : is_named (token_text text) r ≡ false = is_named-token_text text r ∙ ground arith in
    rw other (filter_new text x rows same (ground arith))

module _ (flags : Bitflags) where
  get_new :
      (now : ℕ) (text : String) (token : PersonalAccessToken) (rows rows' : Pats)
      → token.access_token ≡ token_text text
      → flags.contains Scopes.all token.scopes ≡ true
      → insert now token rows ≡ ok rows'
      → get flags (token_text text) rows' ≡ some (record token { created = now; last_used = none })
  unfolding insert get newest read_row from_bits
  get_new now text token rows rows' same known h =
      let x = record token { created = now; last_used = none } in
      let added : rows' ≡ rows ++ x ∷ [] = ground arith in
      let free : any (λ r. r.id == token.id || str_eq r.access_token token.access_token) rows
          ≡ false =
        ground arith in
      rw (added, filter_new text x rows same (rw same at free), known) refl

  created_row :
      {Decimal : Type 0} (env : Env) (scopes : ℕ) (user : User Decimal)
      (info : NewPersonalAccessToken) (shown : ShownToken) (rows rows' : Pats)
      → create_pat flags env (ok (scopes, user)) info rows ≡ ok (json shown, rows')
      → (id : ℕ) × (env.new_id rows ≡ some id)
        × (insert env.now (new_token flags env user info id) rows ≡ ok rows')
        × (shown ≡ shown_token (new_token flags env user info id) true)
  unfolding create_pat
  created_row env scopes user info shown rows rows' h = elim (Option-cases (env.new_id rows)) [
    | inl e ↦ absurd (ground arith)
    | inr (id, e) ↦ elim (Result-cases (insert env.now (new_token flags env user info id) rows)) [
      | inr (x, f) ↦ absurd (ground arith)
      | inl (rows1, f) ↦ (id, e, ground arith, ground arith)
    ]
  ]

  -- The token that `create_pat` returns is of the user who called it, has the scopes that were
  -- asked for, and authenticates with them the user that `User::get_id` finds for the id of the
  -- caller, until it expires: on a table as the call left it, and where these scopes are known flags.
  pub create_pat-authenticates :
      {Decimal : Type 0} (env : Env) (b : Backend Decimal) (req : Request) (q : AuthQueue)
      (scopes : ℕ) (user : User Decimal) (row : DbUser Decimal) (info : NewPersonalAccessToken)
      (shown : ShownToken) (rows rows' : Pats)
      → create_pat flags env (ok (scopes, user)) info rows ≡ ok (json shown, rows')
      → flags.contains Scopes.all info.scopes ≡ true
      → b.get_pat (token_text env.random_text) ≡ ok (get flags (token_text env.random_text) rows')
      → get_user b user.id ≡ ok (some row)
      → b.now ≤ info.expires
      → (shown.access_token ≡ some (token_text env.random_text))
        × (shown.user_id ≡ user.id)
        × (get_user_record_from_bearer_token b req shown.access_token q
            ≡ ok (some (info.scopes, row), add_pat shown.id q))
  unfolding shown_token
  create_pat-authenticates env b req q scopes user row info shown rows rows' h known table users
        fresh =
      let (id, _, inserted, same) = created_row env scopes user info shown rows rows' h in
      let token = new_token flags env user info id in
      let found = get_new env.now env.random_text token rows rows' refl known inserted in
      rw same (
        refl,
        refl,
        pat_authenticates b req (token_text env.random_text) q info.scopes row
            (
              record token { created = env.now; last_used = none },
              table ∙ ap ok found,
              fresh,
              get_user-Found b user.id row users,
              refl,
            )
            (token_kind-token_text env.random_text),
      )
