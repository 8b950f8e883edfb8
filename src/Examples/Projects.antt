-- ===== src/Examples/Projects.antt =====
-- Projects at concrete inputs: project 9 is a draft of team 7, of which user 1 is the owner and
-- user 2 a member.
use labrinth.Base.{ℕ, ◌≡◌, refl, true, false, none, some, [], ◌∷◌, ok, arith, ◌+◌}
use labrinth.Base.Int.{pos}
use labrinth.Flags.Bits.{bits}
use labrinth.Ids.{codes}
use labrinth.Users.{public_user}
use labrinth.Users.Role
use labrinth.Api.{no_content}
use labrinth.Images.{delete_unused_images}
use labrinth.Status.Project
use labrinth.Status.Project.{ProjectStatus}
use labrinth.Threads.{MessageBody}
use labrinth.Teams.{get_from_user_id}
use labrinth.Teams.Permissions
use labrinth.Projects.{ModRow, EditProject, Env, get_project}
use labrinth.Projects.Edit.{
  Db, permissions_of, notify_status, record_status, edit_found, edit_row, edit_status, with_status,
  may_set, project_edit,
}
use labrinth.Projects.Columns
use labrinth.Projects.Links
use labrinth.Projects.Edited.{editor, Edited, project_edit-Edited}
use labrinth.Projects.Follow.{project_follow}
use labrinth.Projects.Schedule.{release}
use labrinth.Projects.Steps.{NoModerator, Reach, here, next, edit, follow, release_due}
use labrinth.Projects.Unapproved.{Unapproved, Reach-Unapproved}
use labrinth.Projects.Counted.{Counted, Reach-Counted}
use labrinth.Examples.Teams.{db_user, two_members, logged_in}

abbrev env : Env
env = record {
  trim = λ text. text;
  to_lowercase = λ text. text;
  validate = λ p. ok tt;
  spdx_valid = λ license. true;
  category_id = λ name. none;
  donation_platform_id = λ name. none;
  side_type_id = λ name. 1;
  public_webhook = false;
  delete_from_index = λ id. true;
  notification_id = λ user. 70 + user;
  message_id = 60;
  now = 100;
}

abbrev draft_row : ModRow
draft_row = record {
  id = 9;
  team_id = 7;
  thread_id = 8;
  versions = 3 ∷ [];
  title = "A mod";
  description = "";
  body = "";
  status = "draft";
  requested_status = none;
  moderation_message = some "Add a licence";
  moderation_message_body = none;
  queued = none;
  approved = none;
  webhook_sent = false;
  categories = [];
  issues_url = none;
  source_url = none;
  wiki_url = none;
  license_url = none;
  discord_url = none;
  slug = some "m";
  client_side = 1;
  server_side = 1;
  license = "MIT";
  donations = [];
  monetization_status = "monetized";
  follows = pos 0;
}

abbrev project_db : Db ℕ
project_db = record {
  mods = draft_row ∷ [];
  team_members = two_members.team_members;
  images = [];
  notifications = [];
  messages = [];
  follows = [];
}

abbrev submission : EditProject
submission = record {
  title = some "The mod";
  description = none;
  body = none;
  categories = none;
  additional_categories = none;
  issues_url = none;
  source_url = none;
  wiki_url = none;
  license_url = none;
  discord_url = none;
  donation_urls = none;
  license_id = none;
  client_side = none;
  server_side = none;
  slug = none;
  status = some ProjectStatus.processing;
  requested_status = none;
  moderation_message = none;
  moderation_message_body = none;
  monetization_status = none;
}

-- The owner submits the project for review.
abbrev submitted_row : ModRow
submitted_row = record draft_row {
  title = "The mod";
  status = "processing";
  moderation_message = none;
  queued = some 100;
}

abbrev submitted_db : Db ℕ
submitted_db = record project_db {
  mods = submitted_row ∷ [];
  messages =
      record {
        id = 60;
        thread_id = 8;
        author_id = some 1;
        body = MessageBody.status_change ProjectStatus.processing ProjectStatus.draft;
        created = 100;
      }
      ∷ [];
}

find_draft : get_project env "m" project_db.mods ≡ some draft_row
unfolding get_project labrinth.Ids.parse_base62
find_draft = refl

submit_row :
    edit_row
      (editor bits env (public_user (db_user 1 "developer")) Permissions.all draft_row)
      project_db.mods
      submission
      draft_row
    ≡ ok submitted_row
unfolding edit_row Columns.edit_title Columns.edit_description Columns.edit_requested_status
    Columns.clear_categories Columns.edit_categories Columns.edit_additional_categories
    Columns.edit_license Columns.edit_client_side Columns.edit_server_side
    Columns.edit_moderation_message Columns.edit_moderation_message_body Columns.edit_body
    Columns.edit_monetization_status Links.edit_issues_url Links.edit_source_url Links.edit_wiki_url
    Links.edit_license_url Links.edit_discord_url Links.edit_donation_urls Links.edit_slug
    edit_status with_status may_set labrinth.Flags.Bits.bits_contain public_user Project.is_approved
    Project.from_str Project.as_str Project.is_searchable Role.is_mod Role.from_string
submit_row = refl

submit_found :
    edit_found bits env
      (editor bits env (public_user (db_user 1 "developer")) Permissions.all draft_row)
      (get_from_user_id bits 7 1 project_db.team_members)
      submission
      project_db
    ≡ ok (no_content, submitted_db)
unfolding edit_found notify_status record_status delete_unused_images
    labrinth.Flags.Bits.bits_contain get_from_user_id public_user Project.from_str
submit_found = rw submit_row refl

owner_permissions :
    Permissions.get_permissions_by_role bits
      (public_user (db_user 1 "developer")).role
      (permissions_of (get_from_user_id bits 7 1 project_db.team_members))
    ≡ some Permissions.all
unfolding Permissions.get_permissions_by_role get_from_user_id labrinth.Flags.Bits.bits_contain
    public_user Role.from_string Role.is_admin
owner_permissions = refl

submit :
    project_edit bits env (logged_in 1 "developer") "m" submission project_db
    ≡ ok (no_content, submitted_db)
unfolding project_edit public_user
submit = rw (find_draft, owner_permissions) submit_found

-- User 2 follows it.
abbrev followed_db : Db ℕ
followed_db = record submitted_db {
  mods = record submitted_row { follows = pos 1 } ∷ [];
  follows = (2, 9) ∷ [];
}

find_submitted : get_project env "m" submitted_db.mods ≡ some submitted_row
unfolding get_project labrinth.Ids.parse_base62
find_submitted = refl

follow_it :
    project_follow env (logged_in 2 "developer") "m" submitted_db ≡ ok (no_content, followed_db)
unfolding project_follow public_user labrinth.Auth.Access.is_authorized Project.is_hidden
    Project.from_str Role.is_mod Role.from_string
follow_it = rw find_submitted refl

developers : (id : ℕ) → NoModerator (logged_in id "developer")
unfolding public_user Role.is_mod Role.from_string
developers id scopes user h = ground arith

afterwards : Reach bits project_db (release 200 followed_db)
afterwards =
    next
      (next (next here (edit env (logged_in 1 "developer") "m" submission (developers 1) submit))
        (follow env (logged_in 2 "developer") "m" follow_it))
      (release_due 200)

draft_waits : Unapproved 9 project_db.mods
unfolding Project.is_approved Project.from_str Project.as_str
draft_waits = (λ h. (refl, refl), tt)

project_edit-Edited_example : Edited bits env (logged_in 1 "developer") "m" project_db submitted_db
project_edit-Edited_example =
    project_edit-Edited bits env (logged_in 1 "developer") "m" submission project_db submitted_db
      submit

Reach-Unapproved_example : Unapproved 9 (release 200 followed_db).mods
Reach-Unapproved_example = Reach-Unapproved bits 9 afterwards draft_waits

draft-Counted : Counted project_db
draft-Counted = record { once = λ user project. omega arith; counts = (refl, tt) }

Reach-Counted_example : Counted (release 200 followed_db)
Reach-Counted_example = Reach-Counted bits afterwards draft-Counted
