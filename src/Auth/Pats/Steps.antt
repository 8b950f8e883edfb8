-- ===== src/Auth/Pats/Steps.antt =====
-- What the routes do to the tokens, as steps, by the user who calls them.
use labrinth.Base.{ℕ, String, ◌≡◌, ◌≢◌, ok}
use labrinth.Flags.{Bitflags}
use labrinth.Users.{User}
use labrinth.Api.{json, no_content}
use labrinth.Auth.Pats.{
  Pats, Env, ShownToken, NewPersonalAccessToken, ModifyPersonalAccessToken, create_pat, edit_pat,
  delete_pat,
}

module _ (Decimal : Type 0) (flags : Bitflags) where
  -- A call that succeeds, with the user that `get_user_from_headers` returned.
  pub data Step (scopes : ℕ) (user : User Decimal) : Pats → Pats → Type 0 where
    create :
        {rows rows' : Pats} (env : Env) (info : NewPersonalAccessToken) (shown : ShownToken)
        → create_pat flags env (ok (scopes, user)) info rows ≡ ok (json shown, rows')
        → Step scopes user rows rows'
    edit :
        {rows rows' : Pats} (env : Env) (id : String) (info : ModifyPersonalAccessToken)
        → edit_pat flags env (ok (scopes, user)) id info rows ≡ ok (no_content, rows')
        → Step scopes user rows rows'
    delete :
        {rows rows' : Pats} (env : Env) (id : String)
        → delete_pat flags env (ok (scopes, user)) id rows ≡ ok (no_content, rows')
        → Step scopes user rows rows'

  -- Any number of steps of users other than one.
  pub data Reach (owner : ℕ) (rows : Pats) : Pats → Type 0 where
    here : Reach owner rows rows
    next :
        {rows' rows'' : Pats} (scopes : ℕ) (user : User Decimal)
        → Reach owner rows rows'
        → user.id ≢ owner
        → Step scopes user rows' rows''
        → Reach owner rows rows''
