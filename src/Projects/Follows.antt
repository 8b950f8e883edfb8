-- ===== src/Projects/Follows.antt =====
-- The counter of the followers of a project.
use labrinth.Base.{
  ℕ, String, ◌≡◌, inl, inr, refl, true, false, not, some, [], ◌∷◌, ◌++◌, any, filterb, ok, err,
  arith, Option-cases,
}
use labrinth.Users.{User}
use labrinth.Api.{no_content}
use labrinth.Teams.Routes.{Auth}
use labrinth.Projects.{ModRow, Env, get_project}
use labrinth.Projects.Edit.{Db}
use labrinth.Projects.Follow.{
  increment, decrement, is_follow, count, project_follow, project_unfollow,
}

module _ {Decimal : Type 0} (env : Env) where
  pub project_follow_cases :
      (auth : Auth Decimal) (string : String) (db db' : Db Decimal)
      → project_follow env auth string db ≡ ok (no_content, db')
      → (scopes : ℕ) × (user : User Decimal) × (item : ModRow) × (auth ≡ ok (scopes, user))
        × (get_project env string db.mods ≡ some item)
        × (any (is_follow user.id item.id) db.follows ≡ false)
        × (db'.mods ≡ count increment item.id db.mods)
        × (db'.follows ≡ db.follows ++ (user.id, item.id) ∷ [])
  unfolding project_follow
  project_follow_cases (err e) string db db' h = absurd (ground arith)
  project_follow_cases (ok (scopes, user)) string db db' h =
      elim (Option-cases (get_project env string db.mods)) [
        | inl e ↦ absurd (ground arith)
        | inr (item, e) ↦ (scopes, user, item, refl, e, ground arith, ground arith, ground arith)
      ]

  pub project_unfollow_cases :
      (auth : Auth Decimal) (string : String) (db db' : Db Decimal)
      → project_unfollow env auth string db ≡ ok (no_content, db')
      → (scopes : ℕ) × (user : User Decimal) × (item : ModRow) × (auth ≡ ok (scopes, user))
        × (get_project env string db.mods ≡ some item)
        × (any (is_follow user.id item.id) db.follows ≡ true)
        × (db'.mods ≡ count decrement item.id db.mods)
        × (db'.follows ≡ filterb (λ f. not (is_follow user.id item.id f)) db.follows)
  unfolding project_unfollow
  project_unfollow_cases (err e) string db db' h = absurd (ground arith)
  project_unfollow_cases (ok (scopes, user)) string db db' h =
      elim (Option-cases (get_project env string db.mods)) [
        | inl e ↦ absurd (ground arith)
        | inr (item, e) ↦ (scopes, user, item, refl, e, ground arith, ground arith, ground arith)
      ]
