-- ===== src/Projects/Schedule.antt =====
-- The release of projects at a set time: `project_schedule`, and the task of src/main.rs that
-- releases what is due.
use labrinth.Base.{
  ℕ, String, Bool, false, not, ◌&&◌, ◌||◌, Option, none, some, map, ◌==◌, ltb, str_eq,
  if◌then◌else◌, ok, guard, ◌>>=◌, ◌>>◌,
}
use labrinth.Flags.{Bitflags}
use labrinth.Users.{User}
use labrinth.Users.Role
use labrinth.Api.{custom_authentication, invalid_input, no_content, not_found}
use labrinth.Status.Project
use labrinth.Status.Project.{ProjectStatus}
use labrinth.Teams.{DbTeamMember, get_from_user_id}
use labrinth.Teams.Permissions
use labrinth.Teams.Routes.{Auth, current_user}
use labrinth.Projects.{ModRow, Env, get_project}
use labrinth.Projects.Edit.{Db, Outcome}

pub record SchedulingData : Type 0 where
  pub time : ℕ
  pub requested_status : ProjectStatus

-- The columns that the statement writes; the requested status is not among them.
abbrev pub schedule_row : ℕ → ModRow → ModRow
schedule_row time m = record m {
  status = Project.as_str ProjectStatus.scheduled;
  approved = some time;
}

module _ {Decimal : Type 0} (flags : Bitflags) (env : Env) where
  abbrev pub may_schedule : User Decimal → Option (DbTeamMember Decimal) → Bool
  may_schedule user none = Role.is_mod user.role
  may_schedule user (some m) =
      Role.is_mod user.role || flags.contains m.permissions Permissions.edit_details

  abbrev pub schedule_found :
      User Decimal → Option ModRow → SchedulingData → Db Decimal → Outcome Decimal
  schedule_found user none s db = ok (not_found, db)
  schedule_found user (some item) s db = do
    guard (may_schedule user (get_from_user_id flags item.team_id user.id db.team_members))
        (custom_authentication "You do not have permission to edit this project's scheduling data!")
    guard (Project.is_approved (Project.from_str item.status)) (
        invalid_input
          "This project has not been approved yet. Submit to the queue with the private status to schedule it in the future!")
    guard (not item.webhook_sent)
        (invalid_input "This project already has been published. It cannot be scheduled!")
    ok (
      no_content,
      record db { mods = map (λ m. if m.id == item.id then schedule_row s.time m else m) db.mods },
    )

  unfoldable pub project_schedule :
      Auth Decimal → String → SchedulingData → Db Decimal → Outcome Decimal
  unfolding get_project
  project_schedule auth string s db = do
    user ← current_user auth
    guard (not (ltb s.time env.now))
        (invalid_input "You cannot schedule a project to be released in the past!")
    guard (Project.can_be_requested s.requested_status)
        (invalid_input "Specified requested status cannot be requested!")
    schedule_found user (get_project env string db.mods) s db

abbrev pub before : Option ℕ → ℕ → Bool
before none today = false
before (some t) today = ltb t today

abbrev requested : Option String → String → String
requested none status = status
requested (some r) status = r

-- `UPDATE mods SET status = requested_status WHERE status = $1 AND approved < CURRENT_DATE AND
-- requested_status IS NOT NULL`
unfoldable pub release_row : ℕ → ModRow → ModRow
release_row today m =
    if str_eq m.status (Project.as_str ProjectStatus.scheduled) && before m.approved today
    then record m { status = requested m.requested_status m.status }
    else m

unfoldable pub release : {Decimal : Type 0} → ℕ → Db Decimal → Db Decimal
unfolding release_row
release today db = record db { mods = map (release_row today) db.mods }
