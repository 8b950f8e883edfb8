-- ===== src/Teams/Permissions.antt =====
-- `Permissions` of src/models/teams.rs.
use labrinth.Base.{ℕ, ◌^◌, Option, none, some, if◌then◌else◌}
use labrinth.Flags.{Bitflags}
use labrinth.Users.Role
use labrinth.Users.Role.{Role}

abbrev pub upload_version : ℕ
upload_version = 2 ^ 0

abbrev pub delete_version : ℕ
delete_version = 2 ^ 1

abbrev pub edit_details : ℕ
edit_details = 2 ^ 2

abbrev pub edit_body : ℕ
edit_body = 2 ^ 3

abbrev pub manage_invites : ℕ
manage_invites = 2 ^ 4

abbrev pub remove_member : ℕ
remove_member = 2 ^ 5

abbrev pub edit_member : ℕ
edit_member = 2 ^ 6

abbrev pub delete_project : ℕ
delete_project = 2 ^ 7

abbrev pub view_analytics : ℕ
view_analytics = 2 ^ 8

abbrev pub view_payouts : ℕ
view_payouts = 2 ^ 9

abbrev pub all : ℕ
all = 0b1111111111

unfoldable pub default : Bitflags → ℕ
default flags = flags.union upload_version delete_version

-- The permissions of the team member, if the user is one, stand for the member.
unfoldable pub get_permissions_by_role : Bitflags → Role → Option ℕ → Option ℕ
get_permissions_by_role flags role member = if Role.is_admin role then some all else elim member [
  | some permissions ↦ some permissions
  | none ↦
      if Role.is_mod role
      then some (flags.union (flags.union edit_details edit_body) upload_version)
      else none
]
