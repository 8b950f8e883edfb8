-- ===== src/Notifications/Routes.antt =====
-- The routes of src/routes/v2/notifications.rs that change notifications, and those that show them.
use labrinth.Base.{
  ℕ, String, Bool, ◌||◌, Option, none, some, List, [], ◌∷◌, map, filterb, ◌==◌, if◌then◌else◌,
  Result, ok, guard, ◌>>=◌, ◌>>◌,
}
use labrinth.Users.{User}
use labrinth.Users.Role
use labrinth.Api.{ApiError, custom_authentication, Response, json, no_content, not_found}
use labrinth.Teams.Routes.{Auth, current_user}
use labrinth.Notifications.{Notification, get_many, get, read_many, remove_many}

abbrev pub Outcome : Type 0
Outcome = Result ApiError (Response (Unit {0}) × List Notification)

module _ {Decimal : Type 0} where
  -- A notification is changed by its user, or by an administrator.
  abbrev pub is_allowed : User Decimal → Notification → Bool
  is_allowed user n = n.user_id == user.id || Role.is_admin user.role

  -- The ids of the notifications that were found and that the user may change.
  abbrev pub allowed_ids : User Decimal → List Notification → List ℕ
  allowed_ids user found = map (λ (n : Notification). n.id) (filterb (is_allowed user) found)

  unfoldable pub notifications_get :
      Auth Decimal → List ℕ → List Notification → Result ApiError (List Notification)
  unfolding get_many
  notifications_get auth ids rows = do
    user ← current_user auth
    ok (filterb (is_allowed user) (get_many ids rows))

  abbrev shown : User Decimal → Option Notification → Response Notification
  shown user none = not_found
  shown user (some n) = if is_allowed user n then json n else not_found

  unfoldable pub notification_get :
      Auth Decimal → ℕ → List Notification → Result ApiError (Response Notification)
  unfolding get
  notification_get auth id rows = do user ← current_user auth; ok (shown user (get id rows))

  abbrev pub change_found :
      User Decimal
      → String
      → (List Notification → List Notification)
      → Option Notification
      → List Notification
      → Outcome
  change_found user message change none rows = ok (not_found, rows)
  change_found user message change (some n) rows = do
    guard (is_allowed user n) (custom_authentication message)
    ok (no_content, change rows)

  -- `config` does not register this route: it names `notifications_read` in its place.
  unfoldable pub notification_read : Auth Decimal → ℕ → List Notification → Outcome
  unfolding get read_many
  notification_read auth id rows = do
    user ← current_user auth
    change_found user "You are not authorized to read this notification!" (read_many (id ∷ []))
        (get id rows) rows

  unfoldable pub notification_delete : Auth Decimal → ℕ → List Notification → Outcome
  unfolding get remove_many
  notification_delete auth id rows = do
    user ← current_user auth
    change_found user "You are not authorized to delete this notification!" (remove_many (id ∷ []))
        (get id rows) rows

  unfoldable pub notifications_read : Auth Decimal → List ℕ → List Notification → Outcome
  unfolding get_many read_many
  notifications_read auth ids rows = do
    user ← current_user auth
    ok (no_content, read_many (allowed_ids user (get_many ids rows)) rows)

  unfoldable pub notifications_delete : Auth Decimal → List ℕ → List Notification → Outcome
  unfolding get_many remove_many
  notifications_delete auth ids rows = do
    user ← current_user auth
    ok (no_content, remove_many (allowed_ids user (get_many ids rows)) rows)
