-- ===== src/Examples/Notifications.antt =====
-- Notifications at concrete inputs: user 1 deletes or reads two, of which one is of user 2.
use labrinth.Base.{
  ℕ, ◌≡◌, true, false, not, ◌&&◌, List, [], ◌∷◌, map, filterb, ok, arith, if◌then◌else◌,
}
use labrinth.Users.{User, public_user}
use labrinth.Api.{no_content}
use labrinth.Notifications.{Notification, NotificationBody, is_one}
use labrinth.Notifications.Routes.{is_allowed, notifications_read, notifications_delete}
use labrinth.Notifications.Exact.{UniqueIds, notifications_exact}
use labrinth.Examples.Teams.{db_user}

abbrev notice : ℕ → ℕ → Notification
notice id user = record { id = id; user_id = user; body = NotificationBody.unknown; read = false }

abbrev two_notices : List Notification
two_notices = notice 5 1 ∷ notice 6 2 ∷ []

abbrev user_one : User ℕ
user_one = public_user (db_user 1 "developer")

two_ids : UniqueIds two_notices
two_ids id = ground arith

notifications_exact_example :
    (notifications_read (ok (0, user_one)) (5 ∷ 6 ∷ []) two_notices
      ≡ ok (
        no_content,
        map
            (λ n.
              if is_one (5 ∷ 6 ∷ []) n && is_allowed user_one n
              then record n { read = true }
              else n)
            two_notices,
      ))
    × (notifications_delete (ok (0, user_one)) (5 ∷ 6 ∷ []) two_notices
        ≡ ok (
          no_content,
          filterb (λ n. not (is_one (5 ∷ 6 ∷ []) n && is_allowed user_one n)) two_notices,
        ))
notifications_exact_example = notifications_exact 0 user_one (5 ∷ 6 ∷ []) two_notices two_ids
