-- ===== src/Notifications.antt =====
-- Notifications: src/models/notifications.rs and the rows that `NotificationBuilder` of
-- src/database/models/notification_item.rs inserts, with the queries and updates of that file.
pub mod Routes
pub mod Exact
use labrinth.Base.{
  ℕ, String, Bool, true, false, not, Option, List, [], ◌∷◌, ◌++◌, map, any, find, filterb, ◌==◌,
  if◌then◌else◌,
}
use labrinth.Status.Project.{ProjectStatus}

-- What can be done about a notification: a title, and the method and the path of a request.
pub record NotificationAction : Type 0 where
  pub title : String
  pub action_route : String × String

pub data NotificationBody : Type 0 where
  project_update : (project_id version_id : ℕ) → NotificationBody
  team_invite : (project_id team_id invited_by : ℕ) (role : String) → NotificationBody
  status_change : (project_id : ℕ) (old_status new_status : ProjectStatus) → NotificationBody
  moderator_message :
      (thread_id message_id : ℕ) (project_id report_id : Option ℕ) → NotificationBody
  legacy_markdown :
      (notification_type : Option String) (title text link : String)
      (actions : List NotificationAction)
      → NotificationBody
  unknown : NotificationBody

-- A row; the time is left out.
pub record Notification : Type 0 where
  pub id : ℕ
  pub user_id : ℕ
  pub body : NotificationBody
  pub read : Bool

-- `insert_many`: one row for each user, with the id that was drawn for it.
unfoldable pub insert_many : NotificationBody → List (ℕ × ℕ) → List Notification → List Notification
insert_many body users rows =
    rows ++ map (λ u. record { id = u.0; user_id = u.1; body = body; read = false }) users

unfoldable pub insert : NotificationBody → ℕ → ℕ → List Notification → List Notification
unfolding insert_many
insert body id user rows = insert_many body ((id, user) ∷ []) rows

-- `WHERE id = ANY($1)`
abbrev pub is_one : List ℕ → Notification → Bool
is_one ids n = any (λ id. n.id == id) ids

-- The order of the rows, by their time, is left out.
unfoldable pub get_many : List ℕ → List Notification → List Notification
get_many ids rows = filterb (is_one ids) rows

unfoldable pub get : ℕ → List Notification → Option Notification
get id rows = find (λ n. n.id == id) rows

unfoldable pub read_many : List ℕ → List Notification → List Notification
read_many ids rows = map (λ n. if is_one ids n then record n { read = true } else n) rows

unfoldable pub remove_many : List ℕ → List Notification → List Notification
remove_many ids rows = filterb (λ n. not (is_one ids n)) rows
