-- ===== src/Threads/Send.antt =====
-- `thread_send_message` (src/routes/v2/threads.rs), as a transaction on the tables. The ids that
-- are drawn are arguments.
use labrinth.Base.{
  ℕ, Bool, true, false, not, ◌&&◌, Option, none, some, List, [], ◌∷◌, ◌++◌, map, any, find, filterb,
  ◌==◌, ltb, length, if◌then◌else◌, Result, ok, err, ok_or, guard, ◌>>=◌, ◌>>◌,
}
use labrinth.Users.{User}
use labrinth.Users.Role
use labrinth.Api.{ApiError, invalid_input, sqlx_database, Response, no_content, not_found}
use labrinth.Notifications
use labrinth.Notifications.{Notification, moderator_message}
use labrinth.Status.Project.{ProjectStatus}
use labrinth.Teams.{Rows, order_by_ordering}
use labrinth.Teams.Routes.{Auth, current_user}
use labrinth.Auth.Access.{ProjectRow}
use labrinth.Images.{ImageContext, thread_message}
use labrinth.Threads.{
  MessageBody, text, status_change, thread_closure, thread_reopen, deleted, DbThread,
  DbThreadMessage,
}
use labrinth.Threads.Access.{Report, Tables, is_authorized_thread}

-- The columns `id` and the context of `uploaded_images`.
pub record Image : Type 0 where
  pub id : ℕ
  pub context : ImageContext

pub record Db (Decimal : Type 0) : Type 0 where
  pub tables : Tables Decimal
  pub projects : List ProjectRow
  pub threads : List DbThread
  pub messages : List DbThreadMessage
  pub images : List Image
  pub notifications : List Notification

-- The answer of the route, with the tables that it commits.
abbrev pub Outcome : Type 0 → Type 0
Outcome Decimal = Result ApiError (Response (Unit {0}) × Db Decimal)

abbrev pub replied_thread : Option DbThreadMessage → ℕ → Result ApiError (Unit {0})
replied_thread none thread = err (invalid_input "Message replied to does not exist!")
replied_thread (some message) thread =
    guard (message.thread_id == thread) (invalid_input "Message replied to is from another thread!")

abbrev pub reply_check : Option ℕ → ℕ → List DbThreadMessage → Result ApiError (Unit {0})
reply_check none thread messages = ok tt
reply_check (some id) thread messages = replied_thread (find (λ m. m.id == id) messages) thread

-- The checks of the body, before the thread is looked up.
unfoldable pub check_body :
    Bool → MessageBody → ℕ → List DbThreadMessage → Result ApiError (Unit {0})
check_body is_mod (text body private replying_to associated_images) thread messages = do
  guard (not (ltb 65536 (length body))) (invalid_input "Input body is too long!")
  guard (not (private && not is_mod))
      (invalid_input "You are not allowed to send private messages!")
  reply_check replying_to thread messages
check_body is_mod (status_change new_status old_status) thread messages =
    err (invalid_input "You may only send text messages through this route!")
check_body is_mod thread_closure thread messages =
    err (invalid_input "You may only send text messages through this route!")
check_body is_mod thread_reopen thread messages =
    err (invalid_input "You may only send text messages through this route!")
check_body is_mod deleted thread messages =
    err (invalid_input "You may only send text messages through this route!")

abbrev pub is_processing : ProjectStatus → Bool
is_processing ProjectStatus.processing = true
is_processing _ = false

abbrev pub images_of : MessageBody → List ℕ
images_of (text body private replying_to associated_images) = associated_images
images_of (status_change new_status old_status) = []
images_of thread_closure = []
images_of thread_reopen = []
images_of deleted = []

-- An image for the messages of threads that none has yet.
abbrev pub is_unused : ImageContext → Bool
is_unused (thread_message none) = true
is_unused _ = false

unfoldable pub set_image : ℕ → ℕ → List Image → List Image
set_image id thread images =
    map (λ i. if i.id == id then record i { context = thread_message (some thread) } else i) images

-- The loop over the images. The column `thread_message_id`, which refers to `threads_messages`, is
-- set to the id of the thread.
unfoldable pub attach :
    ℕ → List ℕ → List DbThreadMessage → List Image → Result ApiError (List Image)
unfolding set_image
attach thread [] messages images = ok images
attach thread (id ∷ ids) messages images =
    let rest = attach thread ids messages (set_image id thread images) in
    (do
      image ← ok_or (find (λ i. i.id == id) images) (invalid_input "Image does not exist")
      guard (is_unused image.context)
          (invalid_input "Image is not unused and in the 'thread_message' context")
      guard (any (λ m. m.id == thread) messages) sqlx_database
      rest)

abbrev pub set_inbox : ℕ → Bool → List DbThread → List DbThread
set_inbox id show threads =
    map (λ t. if t.id == id then record t { show_in_mod_inbox = show } else t) threads

module _ {Decimal : Type 0} where
  -- The members of the team, pending ones too.
  abbrev pub team_users : ℕ → Rows Decimal → List ℕ
  team_users team rows =
      map (λ m. m.user_id) (order_by_ordering (filterb (λ m. m.team_id == team) rows))

  -- For the thread of a project: the notifications, and whether moderators are to look.
  abbrev pub notify_project :
      User Decimal → ℕ → ℕ → Option ProjectRow → (ℕ → ℕ) → Db Decimal → List Notification × Bool
  notify_project user thread message none notification_id db =
      (db.notifications, not (Role.is_mod user.role))
  notify_project user thread message (some p) notification_id db = (
    if not (is_processing p.status) && Role.is_mod user.role
        then Notifications.insert_many (moderator_message thread message (some p.id) none)
            (map (λ u. (notification_id u, u)) (team_users p.team_id db.tables.team_members))
            db.notifications
        else db.notifications,
    is_processing p.status && not (Role.is_mod user.role),
  )

  abbrev pub notify_report :
      User Decimal
      → ℕ
      → ℕ
      → Option Report
      → (ℕ → ℕ)
      → Db Decimal
      → Result ApiError (List Notification × Bool)
  notify_report user thread message none notification_id db =
      ok (db.notifications, not (Role.is_mod user.role))
  notify_report user thread message (some r) notification_id db = do
    guard (not (r.closed && not (Role.is_mod user.role)))
        (invalid_input "You may not reply to a closed report")
    ok (
      if user.id == r.reporter
          then db.notifications
          else Notifications.insert (moderator_message thread message none (some r.id))
              (notification_id r.reporter) r.reporter db.notifications,
      not (Role.is_mod user.role),
    )

  abbrev pub notify :
      User Decimal
      → DbThread
      → ℕ
      → (ℕ → ℕ)
      → Db Decimal
      → Result ApiError (List Notification × Bool)
  notify user thread message notification_id db = elim thread.project_id [
    | some project_id ↦ ok (
        notify_project user thread.id message (find (λ p. p.id == project_id) db.projects)
          notification_id db)
    | none ↦ elim thread.report_id [
      | some report_id ↦
          notify_report user thread.id message (find (λ r. r.id == report_id) db.tables.reports)
            notification_id db
      | none ↦ ok (db.notifications, false)
    ]
  ]

  -- The transaction, for a thread that was found.
  unfoldable pub send_in :
      User Decimal → MessageBody → DbThread → ℕ → (ℕ → ℕ) → ℕ → Db Decimal → Outcome Decimal
  unfolding attach
  send_in user body thread message_id notification_id now db = do
    (notifications, mod_notif) ← notify user thread message_id notification_id db
    let messages =
        db.messages
        ++ record {
          id = message_id;
          thread_id = thread.id;
          author_id = some user.id;
          body = body;
          created = now;
        }
          ∷ []
    images ← attach thread.id (images_of body) messages db.images
    ok (
      no_content,
      record db {
        threads = set_inbox thread.id mod_notif db.threads;
        messages = messages;
        images = images;
        notifications = notifications;
      },
    )

  abbrev pub send_found :
      User Decimal → MessageBody → Option DbThread → ℕ → (ℕ → ℕ) → ℕ → Db Decimal → Outcome Decimal
  send_found user body none message_id notification_id now db = ok (not_found, db)
  send_found user body (some thread) message_id notification_id now db =
      if is_authorized_thread thread user db.tables
      then send_in user body thread message_id notification_id now db
      else ok (not_found, db)

  unfoldable pub thread_send_message :
      Auth Decimal → ℕ → MessageBody → ℕ → (ℕ → ℕ) → ℕ → Db Decimal → Outcome Decimal
  unfolding check_body send_in
  thread_send_message auth id body message_id notification_id now db = do
    user ← current_user auth
    check_body (Role.is_mod user.role) body id db.messages
    send_found user body (find (λ t. t.id == id) db.threads) message_id notification_id now db
