-- ===== src/Projects/Steps.antt =====
-- What happens to the projects, as steps: the calls of the routes for one project that succeed,
-- and the task that releases scheduled projects.
use labrinth.Base.{ℕ, String, ◌≡◌, false, ok}
use labrinth.Flags.{Bitflags}
use labrinth.Users.{User}
use labrinth.Users.Role
use labrinth.Api.{no_content}
use labrinth.Teams.Routes.{Auth}
use labrinth.Projects.{EditProject, Env}
use labrinth.Projects.Edit.{Db, project_edit}
use labrinth.Projects.Schedule.{SchedulingData, project_schedule, release}
use labrinth.Projects.Follow.{project_follow, project_unfollow}

-- The user that a route answers is no moderator.
abbrev pub NoModerator : {Decimal : Type 0} → Auth Decimal → Type 0
NoModerator {Decimal} auth =
    (scopes : ℕ) (user : User Decimal) → auth ≡ ok (scopes, user) → Role.is_mod user.role ≡ false

module _ {Decimal : Type 0} (flags : Bitflags) where
  -- The environment may differ from step to step, so the time does too.
  pub data Step : Db Decimal → Db Decimal → Type 0 where
    edit :
        {db db' : Db Decimal} (env : Env) (auth : Auth Decimal) (string : String) (p : EditProject)
        → NoModerator auth
        → project_edit flags env auth string p db ≡ ok (no_content, db')
        → Step db db'
    schedule :
        {db db' : Db Decimal} (env : Env) (auth : Auth Decimal) (string : String)
        (s : SchedulingData)
        → project_schedule flags env auth string s db ≡ ok (no_content, db')
        → Step db db'
    follow :
        {db db' : Db Decimal} (env : Env) (auth : Auth Decimal) (string : String)
        → project_follow env auth string db ≡ ok (no_content, db')
        → Step db db'
    unfollow :
        {db db' : Db Decimal} (env : Env) (auth : Auth Decimal) (string : String)
        → project_unfollow env auth string db ≡ ok (no_content, db')
        → Step db db'
    release_due : {db : Db Decimal} (today : ℕ) → Step db (release today db)

  -- Any number of steps.
  pub data Reach (db : Db Decimal) : Db Decimal → Type 0 where
    here : Reach db db
    next : {db' db'' : Db Decimal} → Reach db db' → Step db' db'' → Reach db db''
