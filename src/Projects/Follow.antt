-- ===== src/Projects/Follow.antt =====
-- Following a project: `project_follow` and `project_unfollow`, with the counter of the project.
use labrinth.Base.{
  ℕ, zero, suc, String, Bool, not, ◌&&◌, some, List, [], ◌∷◌, ◌++◌, map, any, filterb, ◌==◌,
  if◌then◌else◌, ok, ok_or, guard, ◌>>=◌, ◌>>◌,
}
use labrinth.Base.Int.{ℤ, pos, negsuc}
use labrinth.Users.{User}
use labrinth.Api.{invalid_input, no_content, not_found}
use labrinth.Status.Project
use labrinth.Teams.Routes.{Auth, current_user}
use labrinth.Auth.Access.{ProjectRow, is_authorized}
use labrinth.Projects.{ModRow, Env, get_project}
use labrinth.Projects.Edit.{Db, Outcome}

-- `follows + 1` and `follows - 1`
unfoldable pub increment : ℤ → ℤ
increment (pos n) = pos (suc n)
increment (negsuc zero) = pos 0
increment (negsuc (suc n)) = negsuc n

unfoldable pub decrement : ℤ → ℤ
decrement (pos zero) = negsuc 0
decrement (pos (suc n)) = pos n
decrement (negsuc n) = negsuc (suc n)

abbrev pub is_follow : ℕ → ℕ → ℕ × ℕ → Bool
is_follow user project f = f.0 == user && f.1 == project

abbrev pub count : (ℤ → ℤ) → ℕ → List ModRow → List ModRow
count change project mods =
    map (λ m. if m.id == project then record m { follows = change m.follows } else m) mods

-- The columns that `is_authorized` reads.
abbrev access_row : ModRow → ProjectRow
access_row m = record { id = m.id; team_id = m.team_id; status = Project.from_str m.status }

module _ {Decimal : Type 0} (env : Env) where
  abbrev pub follow_found : User Decimal → ModRow → Db Decimal → Outcome Decimal
  follow_found user item db =
      if is_authorized (access_row item) (some user) db.team_members
      then (do
        guard (not (any (is_follow user.id item.id) db.follows))
            (invalid_input "You are already following this project!")
        ok (
          no_content,
          record db {
            mods = count increment item.id db.mods;
            follows = db.follows ++ (user.id, item.id) ∷ [];
          },
        ))
      else ok (not_found, db)

  unfoldable pub project_follow : Auth Decimal → String → Db Decimal → Outcome Decimal
  unfolding get_project increment
  project_follow auth string db = do
    user ← current_user auth
    item ←
        ok_or (get_project env string db.mods)
          (invalid_input "The specified project does not exist!")
    follow_found user item db

  unfoldable pub project_unfollow : Auth Decimal → String → Db Decimal → Outcome Decimal
  unfolding get_project decrement
  project_unfollow auth string db = do
    user ← current_user auth
    item ←
        ok_or (get_project env string db.mods)
          (invalid_input "The specified project does not exist!")
    guard (any (is_follow user.id item.id) db.follows)
        (invalid_input "You are not following this project!")
    ok (
      no_content,
      record db {
        mods = count decrement item.id db.mods;
        follows = filterb (λ f. not (is_follow user.id item.id f)) db.follows;
      },
    )
