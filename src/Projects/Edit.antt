-- ===== src/Projects/Edit.antt =====
-- `project_edit` as a whole, and the status, which also writes notifications and a message.
use labrinth.Base.{
  ℕ, String, Bool, true, false, not, ◌&&◌, ◌||◌, Option, none, some, List, [], ◌∷◌, ◌++◌, map,
  filterb, ◌==◌, if◌then◌else◌, Result, ok, err, guard, ◌>>=◌, ◌>>◌,
}
use labrinth.Ids.{codes}
use labrinth.Flags.{Bitflags}
use labrinth.Users.{User}
use labrinth.Api.{
  ApiError, custom_authentication, invalid_input, validation, indexing, Response, no_content,
  not_found,
}
use labrinth.Notifications
use labrinth.Notifications.{Notification, status_change}
use labrinth.Status.Project
use labrinth.Status.Project.{ProjectStatus}
use labrinth.Images.{ImageContext, ImageRow, delete_unused_images}
use labrinth.Queue.Auth.{is_empty}
use labrinth.Teams.{DbTeamMember, Rows, get_from_user_id}
use labrinth.Teams.Permissions
use labrinth.Teams.Permissions.{get_permissions_by_role}
use labrinth.Teams.Routes.{Auth, current_user}
use labrinth.Threads.{MessageBody, DbThreadMessage}
use labrinth.Projects.{ModRow, EditProject, Env, get_project}
use labrinth.Projects.Columns.{
  Editor, item_status, is_mod, requires, edit_title, edit_description, edit_requested_status,
  clear_categories, edit_categories, edit_additional_categories, edit_license, edit_client_side,
  edit_server_side, edit_moderation_message, edit_moderation_message_body, edit_body,
  edit_monetization_status,
}
use labrinth.Projects.Links.{
  edit_issues_url, edit_source_url, edit_wiki_url, edit_license_url, edit_discord_url,
  edit_donation_urls, edit_slug,
}

pub record Db (Decimal : Type 0) : Type 0 where
  pub mods : List ModRow
  pub team_members : Rows Decimal
  pub images : List ImageRow
  pub notifications : List Notification
  pub messages : List DbThreadMessage
  -- pairs of a follower and a project
  pub follows : List (ℕ × ℕ)

abbrev pub Outcome : Type 0 → Type 0
Outcome Decimal = Result ApiError (Response (Unit {0}) × Db Decimal)

-- `UPDATE mods … WHERE id = $1`, for a row that was changed
abbrev pub replace : ModRow → List ModRow → List ModRow
replace row mods = map (λ m. if m.id == row.id then row else m) mods

abbrev pub is_processing : ProjectStatus → Bool
is_processing ProjectStatus.processing = true
is_processing _ = false

module _ {Decimal : Type 0} (c : Editor Decimal) where
  -- Who may set which status.
  unfoldable pub may_set : ProjectStatus → Bool
  may_set status =
      is_mod c
      || (not (Project.is_approved (item_status c)) && is_processing status)
      || (Project.is_approved (item_status c) && Project.can_be_requested status)

  abbrev pub submitted : ProjectStatus → ModRow → ModRow
  submitted status m =
      if is_processing status
      then record m {
        moderation_message = none;
        moderation_message_body = none;
        queued = some c.env.now;
      }
      else m

  abbrev first_time : Option ℕ → Option ℕ
  first_time none = some c.env.now
  first_time (some t) = some t

  abbrev pub approved_at : ProjectStatus → ModRow → ModRow
  approved_at status m =
      if Project.is_approved status && not (Project.is_approved (item_status c))
      then record m { approved = first_time m.approved }
      else m

  abbrev pub announced : ProjectStatus → ModRow → ModRow
  announced status m =
      if Project.is_searchable status && not c.item.webhook_sent && c.env.public_webhook
      then record m { webhook_sent = true }
      else m

  -- The row after a change of the status.
  unfoldable pub with_status : ProjectStatus → ModRow → ModRow
  with_status status m = record (announced status (approved_at status (submitted status m))) {
    status = Project.as_str status;
  }

  unfoldable pub edit_status : Option ProjectStatus → ModRow → Result ApiError ModRow
  unfolding may_set with_status
  edit_status none m = ok m
  edit_status (some status) m = do
    requires c Permissions.edit_details
        "You do not have the permissions to edit the status of this project!"
    guard (may_set status) (custom_authentication "You don't have permission to set this status!")
    guard (not (is_processing status && is_empty c.item.versions))
        (invalid_input "Project submitted for review with no initial versions")
    guard
        (not (Project.is_searchable (item_status c) && not (Project.is_searchable status))
          || c.env.delete_from_index c.item.id)
        indexing
    ok (with_status status m)

  -- All parts, in their order.
  unfoldable pub edit_row : List ModRow → EditProject → ModRow → Result ApiError ModRow
  unfolding edit_status
  edit_row mods p m = do
    m ← edit_title c p.title m
    m ← edit_description c p.description m
    m ← edit_status p.status m
    m ← edit_requested_status c p.requested_status m
    m ← clear_categories c p.categories p.additional_categories m
    m ← edit_categories c p.categories m
    m ← edit_additional_categories c p.additional_categories m
    m ← edit_issues_url c p.issues_url m
    m ← edit_source_url c p.source_url m
    m ← edit_wiki_url c p.wiki_url m
    m ← edit_license_url c p.license_url m
    m ← edit_discord_url c p.discord_url m
    m ← edit_slug c mods p.slug m
    m ← edit_client_side c p.client_side m
    m ← edit_server_side c p.server_side m
    m ← edit_license c p.license_id m
    m ← edit_donation_urls c p.donation_urls m
    m ← edit_moderation_message c p.moderation_message m
    m ← edit_moderation_message_body c p.moderation_message_body m
    m ← edit_body c p.body m
    edit_monetization_status c p.monetization_status m

  -- The members of the team are told of a change by one who is no member of it.
  abbrev is_outsider : Option (DbTeamMember Decimal) → Bool
  is_outsider none = true
  is_outsider (some m) = not m.accepted

  unfoldable pub notify_status :
      Option ProjectStatus → Option (DbTeamMember Decimal) → Db Decimal → List Notification
  notify_status none member db = db.notifications
  notify_status (some status) member db =
      if is_outsider member
      then Notifications.insert_many (status_change c.item.id (item_status c) status)
          (map (λ m. (c.env.notification_id m.user_id, m.user_id))
            (filterb (λ m. m.team_id == c.item.team_id && m.accepted) db.team_members))
          db.notifications
      else db.notifications

  unfoldable pub record_status : Option ProjectStatus → Db Decimal → List DbThreadMessage
  record_status none db = db.messages
  record_status (some status) db =
      db.messages
      ++ record {
        id = c.env.message_id;
        thread_id = c.item.thread_id;
        author_id = some c.user.id;
        body = MessageBody.status_change status (item_status c);
        created = c.env.now;
      }
        ∷ []

abbrev pub given_texts : List (Option String) → List (List ℕ)
given_texts [] = []
given_texts (none ∷ texts) = given_texts texts
given_texts (some text ∷ texts) = codes text ∷ given_texts texts

abbrev pub permissions_of : {Decimal : Type 0} → Option (DbTeamMember Decimal) → Option ℕ
permissions_of none = none
permissions_of (some m) = some m.permissions

abbrev pub validated : {A : Type 0} → Result String A → Result ApiError A
validated (ok a) = ok a
validated (err message) = err (validation message)

module _ {Decimal : Type 0} (flags : Bitflags) (env : Env) where
  -- The transaction, for a project that was found and a user with permissions.
  unfoldable pub edit_found :
      Editor Decimal → Option (DbTeamMember Decimal) → EditProject → Db Decimal → Outcome Decimal
  unfolding edit_row notify_status record_status
  edit_found c member p db = do
    row ← edit_row c db.mods p c.item
    ok (
      no_content,
      record db {
        mods = replace row db.mods;
        notifications = notify_status c p.status member db;
        messages = record_status c p.status db;
        images =
            delete_unused_images (ImageContext.project (some c.item.id))
              (given_texts (p.description ∷ p.body ∷ [])) db.images;
      },
    )

  abbrev pub edit_permitted :
      User Decimal
      → ModRow
      → Option (DbTeamMember Decimal)
      → Option ℕ
      → EditProject
      → Db Decimal
      → Outcome Decimal
  edit_permitted user item member none p db =
      err (custom_authentication "You do not have permission to edit this project!")
  edit_permitted user item member (some perms) p db =
      edit_found (record { flags = flags; env = env; user = user; perms = perms; item = item })
        member p db

  abbrev pub edit_project_found :
      User Decimal → Option ModRow → EditProject → Db Decimal → Outcome Decimal
  edit_project_found user none p db = ok (not_found, db)
  edit_project_found user (some item) p db =
      let member = get_from_user_id flags item.team_id user.id db.team_members in
      edit_permitted user item member
        (get_permissions_by_role flags user.role (permissions_of member)) p db

  unfoldable pub project_edit : Auth Decimal → String → EditProject → Db Decimal → Outcome Decimal
  unfolding edit_found get_project get_permissions_by_role
  project_edit auth string p db = do
    user ← current_user auth
    validated (env.validate p)
    edit_project_found user (get_project env string db.mods) p db
