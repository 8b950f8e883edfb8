-- ===== src/Users/Editing.antt =====
-- `user_edit` as a whole.
use labrinth.Base.{
  ℕ, String, ◌≡◌, refl, true, ◌||◌, Option, none, some, List, ◌==◌, Result, ok, err, guard, arith,
  bind-ok,
}
use labrinth.Flags.{Bitflags}
use labrinth.Users.{DbUser, User}
use labrinth.Users.Find.{get_user}
use labrinth.Users.Role
use labrinth.Api.{AuthenticationError, no_content}
use labrinth.Users.Edit.{EditUser, Env, Editor, edit_row, replace, edit_found, validated, user_edit}
use labrinth.Users.Edited.{Changed, edit_row-Changed}

module _ {Decimal : Type 0} (flags : Bitflags) (env : Env) where
  abbrev pub editor : ℕ → User Decimal → List (DbUser Decimal) → Editor Decimal
  editor scopes user users = record {
    flags = flags;
    env = env;
    scopes = scopes;
    user = user;
    users = users;
  }

  found_cases :
      (c : Editor Decimal) (p : EditUser) (found : Option (DbUser Decimal))
      (users' : List (DbUser Decimal))
      → edit_found c p found ≡ ok (no_content, users')
      → (target : DbUser Decimal) × (row : DbUser Decimal) × (found ≡ some target)
        × ((c.user.id == target.id || Role.is_mod c.user.role) ≡ true)
        × Changed c target row
        × (users' ≡ replace row c.users)
  found_cases c p none users' h = absurd (ground arith)
  found_cases c p (some target) users' h =
      let (_, may, h1) =
        bind-ok (guard (c.user.id == target.id || Role.is_mod c.user.role) _) _ (no_content, users')
          h in
      let (row, done, h2) = bind-ok (edit_row c p target) _ (no_content, users') h1 in
      (target, row, refl, ground arith, edit_row-Changed c p target row done, ground arith)

  -- An edit that succeeds is by the user it is about or by a moderator, and changes only that user:
  -- never the id, the balance, the address of mail or the secrets for the login; the role and the
  -- badges only for an administrator; the address for payouts, without the scope for it, at most
  -- to none; and the name only to one that no other row has exactly, and for which the search that
  -- takes it for the text of an id or, whatever its case, for a name, finds nobody or first the user
  -- who edits.
  pub user_edit-Changed :
      (auth : Result AuthenticationError (ℕ × User Decimal)) (string : String) (p : EditUser)
      (users users' : List (DbUser Decimal))
      → user_edit flags env auth string p users ≡ ok (no_content, users')
      → (scopes : ℕ) × (user : User Decimal) × (target : DbUser Decimal) × (row : DbUser Decimal)
        × (auth ≡ ok (scopes, user))
        × (get_user env.to_lowercase string users ≡ some target)
        × ((user.id == target.id || Role.is_mod user.role) ≡ true)
        × Changed (editor scopes user users) target row
        × (users' ≡ replace row users)
  unfolding user_edit
  user_edit-Changed (err e) string p users users' h = absurd (ground arith)
  user_edit-Changed (ok (scopes, user)) string p users users' h =
      let (_, _, h1) = bind-ok (validated (env.validate p)) _ (no_content, users') h in
      let (target, row, found, may, changed, replaced) =
        found_cases (editor scopes user users) p (get_user env.to_lowercase string users) users'
          h1 in
      (scopes, user, target, row, refl, found, may, changed, replaced)
