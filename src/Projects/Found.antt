-- ===== src/Projects/Found.antt =====
-- The project that a route finds, and what a call of `project_schedule` that succeeds has done.
use mathlib.Core.List.{Memᴰ}
use labrinth.Base.{
  ℕ, String, ◌≡◌, refl, true, false, Option, none, some, List, map, ok, err, arith, if◌then◌else◌,
  ◌==◌,
}
use labrinth.Flags.{Bitflags}
use labrinth.Users.{User}
use labrinth.Api.{no_content}
use labrinth.Status.Project
use labrinth.Teams.{get_from_user_id}
use labrinth.Teams.Routes.{Auth}
use labrinth.Teams.Rows.{find-Memᴰ}
use labrinth.Projects.{ModRow, Env, get_project}
use labrinth.Projects.Edit.{Db}
use labrinth.Projects.Schedule.{
  SchedulingData, schedule_row, may_schedule, schedule_found, project_schedule,
}

pub get_project-Memᴰ :
    (env : Env) (string : String) (mods : List ModRow) (item : ModRow)
    → get_project env string mods ≡ some item
    → Memᴰ item mods
unfolding get_project
get_project-Memᴰ env string mods item h = (find-Memᴰ _ item mods h).0

module _ {Decimal : Type 0} (flags : Bitflags) (env : Env) where
  schedule_found_cases :
      (user : User Decimal) (found : Option ModRow) (s : SchedulingData) (db db' : Db Decimal)
      → schedule_found flags env user found s db ≡ ok (no_content, db')
      → (item : ModRow) × (found ≡ some item)
        × (may_schedule flags env user (get_from_user_id flags item.team_id user.id db.team_members)
            ≡ true)
        × (Project.is_approved (Project.from_str item.status) ≡ true)
        × (item.webhook_sent ≡ false)
        × (db'.mods ≡ map (λ m. if m.id == item.id then schedule_row s.time m else m) db.mods)
        × (db'.follows ≡ db.follows)
  schedule_found_cases user none s db db' h = absurd (ground arith)
  schedule_found_cases user (some item) s db db' h =
      (item, refl, ground arith, ground arith, ground arith, ground arith, ground arith)

  pub project_schedule_cases :
      (auth : Auth Decimal) (string : String) (s : SchedulingData) (db db' : Db Decimal)
      → project_schedule flags env auth string s db ≡ ok (no_content, db')
      → (scopes : ℕ) × (user : User Decimal) × (item : ModRow) × (auth ≡ ok (scopes, user))
        × (get_project env string db.mods ≡ some item)
        × (may_schedule flags env user (get_from_user_id flags item.team_id user.id db.team_members)
            ≡ true)
        × (Project.is_approved (Project.from_str item.status) ≡ true)
        × (item.webhook_sent ≡ false)
        × (db'.mods ≡ map (λ m. if m.id == item.id then schedule_row s.time m else m) db.mods)
        × (db'.follows ≡ db.follows)
  unfolding project_schedule
  project_schedule_cases (err e) string s db db' h = absurd (ground arith)
  project_schedule_cases (ok (scopes, user)) string s db db' h =
      let (item, found, may, approved, published, mods, follows) =
        schedule_found_cases user (get_project env string db.mods) s db db' (ground arith) in
      (scopes, user, item, refl, found, may, approved, published, mods, follows)
