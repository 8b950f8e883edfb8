-- ===== src/Projects/Columns.antt =====
-- `project_edit`, column by column: each part takes the row as the transaction has it so far.
use labrinth.Base.{
  ℕ, String, Bool, true, false, not, ◌&&◌, ◌||◌, Option, none, some, List, [], ◌∷◌, ◌++◌, filterb,
  any, ◌==◌, str_eq, if◌then◌else◌, Result, ok, ok_or, guard, ◌>>=◌, ◌>>◌,
}
use labrinth.Flags.{Bitflags}
use labrinth.Users.{User}
use labrinth.Users.Role
use labrinth.Api.{ApiError, custom_authentication, invalid_input, sqlx_database}
use labrinth.Status.Project
use labrinth.Status.Side
use labrinth.Status.Side.{SideType}
use labrinth.Status.Monetization
use labrinth.Status.Monetization.{MonetizationStatus}
use labrinth.Teams.Permissions
use labrinth.Projects.{ModRow, Env}

-- Who edits, with which permissions, and the row as it was read before the transaction.
pub record Editor (Decimal : Type 0) : Type 0 where
  pub flags : Bitflags
  pub env : Env
  pub user : User Decimal
  pub perms : ℕ
  pub item : ModRow

-- `project_item.inner.status`
abbrev pub item_status : {Decimal : Type 0} → Editor Decimal → Project.ProjectStatus
item_status c = Project.from_str c.item.status

module _ {Decimal : Type 0} (c : Editor Decimal) where
  abbrev pub is_mod : Bool
  is_mod = Role.is_mod c.user.role

  -- `if !perms.contains(..) { return Err(..) }`
  abbrev pub requires : ℕ → String → Result ApiError (Unit {0})
  requires permission message =
      guard (c.flags.contains c.perms permission) (custom_authentication message)

  unfoldable pub edit_title : Option String → ModRow → Result ApiError ModRow
  edit_title none m = ok m
  edit_title (some title) m = do
    requires Permissions.edit_details
        "You do not have the permissions to edit the title of this project!"
    ok (record m { title = c.env.trim title })

  unfoldable pub edit_description : Option String → ModRow → Result ApiError ModRow
  edit_description none m = ok m
  edit_description (some description) m = do
    requires Permissions.edit_details
        "You do not have the permissions to edit the description of this project!"
    ok (record m { description = description })

  abbrev requestable : Option Project.ProjectStatus → Bool
  requestable none = true
  requestable (some s) = Project.can_be_requested s

  abbrev status_text : Option Project.ProjectStatus → Option String
  status_text none = none
  status_text (some s) = some (Project.as_str s)

  unfoldable pub edit_requested_status :
      Option (Option Project.ProjectStatus) → ModRow → Result ApiError ModRow
  edit_requested_status none m = ok m
  edit_requested_status (some requested) m = do
    requires Permissions.edit_details
        "You do not have the permissions to edit the requested status of this project!"
    guard (requestable requested) (invalid_input "Specified status cannot be requested!")
    ok (record m { requested_status = status_text requested })

  -- `DELETE FROM mods_categories`, where lists of categories are given
  abbrev cleared : Bool → Option (List String) → List (ℕ × Bool) → List (ℕ × Bool)
  cleared additional none rows = rows
  cleared additional (some names) rows =
      filterb (λ r. not (if additional then r.1 else not r.1)) rows

  unfoldable pub clear_categories :
      Option (List String) → Option (List String) → ModRow → Result ApiError ModRow
  clear_categories categories additional m = ok (
      if c.flags.contains c.perms Permissions.edit_details
      then record m { categories = cleared true additional (cleared false categories m.categories) }
      else m)

  -- The loop over the names. A category is in the table once.
  unfoldable pub insert_categories :
      Bool → List String → List (ℕ × Bool) → Result ApiError (List (ℕ × Bool))
  insert_categories additional [] rows = ok rows
  insert_categories additional (name ∷ names) rows = do
    id ← ok_or (c.env.category_id name) (invalid_input "Category does not exist.")
    guard (not (any (λ r. r.0 == id) rows)) sqlx_database
    insert_categories additional names (rows ++ (id, additional) ∷ [])

  unfoldable pub edit_categories : Option (List String) → ModRow → Result ApiError ModRow
  edit_categories none m = ok m
  edit_categories (some names) m = do
    requires Permissions.edit_details
        "You do not have the permissions to edit the categories of this project!"
    rows ← insert_categories false names m.categories
    ok (record m { categories = rows })

  unfoldable pub edit_additional_categories : Option (List String) → ModRow → Result ApiError ModRow
  edit_additional_categories none m = ok m
  edit_additional_categories (some names) m = do
    requires Permissions.edit_details
        "You do not have the permissions to edit the additional categories of this project!"
    rows ← insert_categories true names m.categories
    ok (record m { categories = rows })

  abbrev arr : String → String
  arr license =
      if str_eq (c.env.to_lowercase license) "arr"
      then "LicenseRef-All-Rights-Reserved"
      else license

  unfoldable pub edit_license : Option String → ModRow → Result ApiError ModRow
  edit_license none m = ok m
  edit_license (some license) m = do
    requires Permissions.edit_details
        "You do not have the permissions to edit the license of this project!"
    guard (c.env.spdx_valid (arr license)) (invalid_input "Invalid SPDX license identifier")
    ok (record m { license = arr license })

  unfoldable pub edit_client_side : Option SideType → ModRow → Result ApiError ModRow
  edit_client_side none m = ok m
  edit_client_side (some side) m = do
    requires Permissions.edit_details
        "You do not have the permissions to edit the side type of this mod!"
    ok (record m { client_side = c.env.side_type_id (Side.as_str side) })

  unfoldable pub edit_server_side : Option SideType → ModRow → Result ApiError ModRow
  edit_server_side none m = ok m
  edit_server_side (some side) m = do
    requires Permissions.edit_details
        "You do not have the permissions to edit the side type of this project!"
    ok (record m { server_side = c.env.side_type_id (Side.as_str side) })

  -- Who is no moderator may only clear a message, and that of an approved project.
  abbrev may_message : Option String → Bool
  may_message none = is_mod || Project.is_approved (item_status c)
  may_message (some text) = is_mod

  unfoldable pub edit_moderation_message : Option (Option String) → ModRow → Result ApiError ModRow
  edit_moderation_message none m = ok m
  edit_moderation_message (some message) m = do
    guard (may_message message) (
        custom_authentication
          "You do not have the permissions to edit the moderation message of this project!")
    ok (record m { moderation_message = message })

  unfoldable pub edit_moderation_message_body :
      Option (Option String) → ModRow → Result ApiError ModRow
  edit_moderation_message_body none m = ok m
  edit_moderation_message_body (some message) m = do
    guard (may_message message) (
        custom_authentication
          "You do not have the permissions to edit the moderation message body of this project!")
    ok (record m { moderation_message_body = message })

  unfoldable pub edit_body : Option String → ModRow → Result ApiError ModRow
  edit_body none m = ok m
  edit_body (some body) m = do
    requires Permissions.edit_body
        "You do not have the permissions to edit the body of this project!"
    ok (record m { body = body })

  abbrev pub is_forced : MonetizationStatus → Bool
  is_forced MonetizationStatus.force_demonetized = true
  is_forced MonetizationStatus.monetized = false
  is_forced MonetizationStatus.demonetized = false

  unfoldable pub edit_monetization_status :
      Option MonetizationStatus → ModRow → Result ApiError ModRow
  edit_monetization_status none m = ok m
  edit_monetization_status (some status) m = do
    requires Permissions.edit_details
        "You do not have the permissions to edit the monetization status of this project!"
    guard
        (not (
          (is_forced status || is_forced (Monetization.from_str c.item.monetization_status))
          && not is_mod))
        (custom_authentication
          "You do not have the permissions to edit the monetization status of this project!")
    ok (record m { monetization_status = Monetization.as_str status })
