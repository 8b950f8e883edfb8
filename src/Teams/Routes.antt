-- ===== src/Teams/Routes.antt =====
-- The routes that change a team (src/routes/v2/teams.rs), as transactions on the tables: a
-- route that returns an error has committed nothing.
use labrinth.Base.{
  ℕ, String, Bool, true, false, not, ◌&&◌, ◌||◌, Option, none, some, List, any, find, ◌==◌, str_eq,
  if◌then◌else◌, Result, ok, err, ok_or, guard, ◌>>=◌, ◌>>◌,
}
use labrinth.Base.Int.{ℤ}
use labrinth.Flags.{Bitflags}
use labrinth.Users.{DbUser, User}
use labrinth.Users.Role
use labrinth.Api.{
  AuthenticationError, ApiError, authentication, custom_authentication, invalid_input, database,
  sqlx_database, Response, no_content, not_found,
}
use labrinth.Notifications
use labrinth.Notifications.{Notification, team_invite}
use labrinth.Teams.{
  DbTeamMember, Rows, Edit, owner_role, default_role, get_from_user_id, get_from_user_id_pending,
  insert_member, delete_member, edit_team_member as update_team_member,
}
use labrinth.Teams.Permissions

-- What the routes use of rust_decimal.
pub record Decimals (Decimal : Type 0) : Type 0 where
  pub lt : Decimal → Decimal → Bool
  pub from_ℕ : ℕ → Decimal

-- The columns `id` and `team_id` of `mods`.
pub record Mod : Type 0 where
  pub id : ℕ
  pub team_id : ℕ

pub record Db (Decimal : Type 0) : Type 0 where
  pub team_members : Rows Decimal
  pub mods : List Mod
  pub users : List (DbUser Decimal)
  pub notifications : List Notification

pub record NewTeamMember (Decimal : Type 0) : Type 0 where
  pub user_id : ℕ
  pub role : String
  pub permissions : ℕ
  pub payouts_split : Decimal
  pub ordering : ℤ

pub record EditTeamMember (Decimal : Type 0) : Type 0 where
  pub permissions : Option ℕ
  pub role : Option String
  pub payouts_split : Option Decimal
  pub ordering : Option ℤ

-- What `get_user_from_headers` returned for the scopes that a route asks for.
abbrev pub Auth : Type 0 → Type 0
Auth Decimal = Result AuthenticationError (ℕ × User Decimal)

abbrev pub current_user : {Decimal : Type 0} → Auth Decimal → Result ApiError (User Decimal)
current_user (ok (scopes, user)) = ok user
current_user (err e) = err (authentication e)

-- The answer of a route, with the tables that it commits.
abbrev pub Outcome : Type 0 → Type 0
Outcome Decimal = Result ApiError (Response (Unit {0}) × Db Decimal)

abbrev pub no_edit : {Decimal : Type 0} → Edit Decimal
no_edit = record {
  permissions = none;
  role = none;
  accepted = none;
  payouts_split = none;
  ordering = none;
}

abbrev cannot_edit : ApiError
cannot_edit = custom_authentication "You don't have permission to edit members of this team"

abbrev split_message : ApiError
split_message = invalid_input "Payouts split must be between 0 and 5000!"

abbrev owner_message : ApiError
owner_message = invalid_input "The `Owner` role is restricted to one person"

abbrev pub is_some {ℓ} : {A : Type ℓ} → Option A → Bool
is_some none = false
is_some (some a) = true

-- `if let Some(x) = … { if !p(x) { return Err(..) } }`
abbrev pub each : {A : Type 0} → Option A → (A → Bool) → Bool
each none p = true
each (some a) p = p a

module _ {Decimal : Type 0} where
  unfoldable pub join_team : Bitflags → Auth Decimal → ℕ → Db Decimal → Outcome Decimal
  join_team flags auth team_id db = do
    user ← current_user auth
    member ←
        ok_or (get_from_user_id_pending flags team_id user.id db.team_members)
          (invalid_input "There is no pending request from this team")
    guard (not member.accepted) (invalid_input "You are already a member of this team")
    ok (
      no_content,
      record db {
        team_members =
            update_team_member team_id user.id (record no_edit { accepted = some true })
              db.team_members;
      },
    )

  abbrev request_message : DbTeamMember Decimal → ApiError
  request_message request =
      if request.accepted
      then invalid_input "The user is already a member of that team"
      else invalid_input "There is already a pending member request for this user"

  abbrev no_request : Option (DbTeamMember Decimal) → Result ApiError (Unit {0})
  no_request none = ok tt
  no_request (some request) = err (request_message request)

  abbrev has_user : ℕ → List (DbUser Decimal) → Bool
  has_user id users = any (λ u. u.id == id) users

  abbrev split_fits : Decimals Decimal → Decimal → Bool
  split_fits dec split = not (dec.lt split (dec.from_ℕ 0) || dec.lt (dec.from_ℕ 5000) split)

  -- `new_id` and `notification_id` are what `generate_team_member_id` and
  -- `generate_notification_id` returned, `none` for an error. The user of the row must exist, by the
  -- foreign key of the table.
  unfoldable pub add_team_member :
      Decimals Decimal
      → Bitflags
      → Auth Decimal
      → ℕ
      → NewTeamMember Decimal
      → Option ℕ
      → Option ℕ
      → Db Decimal
      → Outcome Decimal
  add_team_member dec flags auth team_id new_member new_id notification_id db = do
    user ← current_user auth
    member ← ok_or (get_from_user_id flags team_id user.id db.team_members) cannot_edit
    guard (flags.contains member.permissions Permissions.manage_invites)
        (custom_authentication "You don't have permission to invite users to this team")
    guard (flags.contains member.permissions new_member.permissions)
        (invalid_input "The new member has permissions that you don't have")
    guard (not (str_eq new_member.role owner_role)) owner_message
    guard (split_fits dec new_member.payouts_split) split_message
    no_request (get_from_user_id_pending flags team_id new_member.user_id db.team_members)
    guard (has_user member.user_id db.users) (invalid_input "An invalid User ID specified")
    id ← ok_or new_id database
    guard (has_user new_member.user_id db.users) sqlx_database
    project ← ok_or (find (λ m. m.team_id == team_id) db.mods) sqlx_database
    notification ← ok_or notification_id database
    ok (
      no_content,
      record db {
        team_members =
            insert_member (dec.from_ℕ 0)
              (record {
                id = id;
                team_id = team_id;
                user_id = new_member.user_id;
                role = new_member.role;
                permissions = new_member.permissions;
                accepted = false;
                payouts_split = new_member.payouts_split;
                ordering = new_member.ordering;
              })
              db.team_members;
        notifications =
            Notifications.insert (team_invite project.id team_id user.id new_member.role)
              notification new_member.user_id db.notifications;
      },
    )

  unfoldable pub edit_team_member :
      Decimals Decimal
      → Bitflags
      → Auth Decimal
      → ℕ
      → ℕ
      → EditTeamMember Decimal
      → Db Decimal
      → Outcome Decimal
  edit_team_member dec flags auth id user_id edit_member db = do
    user ← current_user auth
    member ← ok_or (get_from_user_id flags id user.id db.team_members) cannot_edit
    edit_member_db ← ok_or (get_from_user_id_pending flags id user_id db.team_members) cannot_edit
    guard
        (not (
          str_eq edit_member_db.role owner_role
          && (is_some edit_member.role || is_some edit_member.permissions)))
        (invalid_input "The owner's permission and role of a team cannot be edited")
    guard (flags.contains member.permissions Permissions.edit_member) cannot_edit
    guard (each edit_member.permissions (λ p. flags.contains member.permissions p))
        (invalid_input "The new permissions have permissions that you don't have")
    guard (each edit_member.payouts_split (split_fits dec)) split_message
    guard (each edit_member.role (λ r. not (str_eq r owner_role))) owner_message
    ok (
      no_content,
      record db {
        team_members =
            update_team_member id user_id
              (record {
                permissions = edit_member.permissions;
                role = edit_member.role;
                accepted = none;
                payouts_split = edit_member.payouts_split;
                ordering = edit_member.ordering;
              })
              db.team_members;
      },
    )

  -- The test for a user who is no administrator.
  unfoldable pub owns_team : Bitflags → User Decimal → ℕ → Rows Decimal → Result ApiError (Unit {0})
  owns_team flags user id rows = if Role.is_admin user.role then ok tt else (do
    member ← ok_or (get_from_user_id flags id user.id rows) cannot_edit
    guard (str_eq member.role owner_role)
        (custom_authentication "You don't have permission to edit the ownership of this team"))

  unfoldable pub transfer_ownership : Bitflags → Auth Decimal → ℕ → ℕ → Db Decimal → Outcome Decimal
  unfolding owns_team
  transfer_ownership flags auth id new_owner db = do
    user ← current_user auth
    owns_team flags user id db.team_members
    new_member ←
        ok_or (get_from_user_id flags id new_owner db.team_members)
          (invalid_input "The new owner specified does not exist")
    guard new_member.accepted
        (invalid_input "You can only transfer ownership to members who are currently in your team")
    ok (
      no_content,
      record db {
        team_members =
            update_team_member id new_owner
              (record no_edit { permissions = some Permissions.all; role = some owner_role })
              (update_team_member id user.id (record no_edit { role = some default_role })
                db.team_members);
      },
    )

  -- A member who is there may go, and may be removed by one with the permission for it.
  abbrev may_remove : Bitflags → DbTeamMember Decimal → DbTeamMember Decimal → Bool
  may_remove flags member delete_member =
      delete_member.user_id == member.user_id
      || (flags.contains member.permissions (
            if delete_member.accepted
            then Permissions.remove_member
            else Permissions.manage_invites)
          && member.accepted)

  abbrev remove_message : DbTeamMember Decimal → ApiError
  remove_message member =
      if member.accepted
      then custom_authentication "You do not have permission to remove a member from this team"
      else custom_authentication "You do not have permission to cancel a team invite"

  abbrev remove_found :
      Bitflags
      → DbTeamMember Decimal
      → Option (DbTeamMember Decimal)
      → ℕ
      → ℕ
      → Db Decimal
      → Outcome Decimal
  remove_found flags member none id user_id db = ok (not_found, db)
  remove_found flags member (some found) id user_id db = do
    guard (not (str_eq found.role owner_role))
        (custom_authentication "The owner can't be removed from a team")
    guard (may_remove flags member found) (remove_message found)
    ok (no_content, record db { team_members = delete_member id user_id db.team_members })

  unfoldable pub remove_team_member : Bitflags → Auth Decimal → ℕ → ℕ → Db Decimal → Outcome Decimal
  remove_team_member flags auth id user_id db = do
    user ← current_user auth
    member ← ok_or (get_from_user_id flags id user.id db.team_members) cannot_edit
    remove_found flags member (get_from_user_id_pending flags id user_id db.team_members) id user_id
        db
