-- ===== src/Teams.antt =====
-- Teams: the rows and queries of src/database/models/team_item.rs and the model of
-- src/models/teams.rs. A table is the list of its rows; a query that the source writes in SQL is
-- a function of the list.
pub mod Permissions
pub mod Routes
pub mod Rows
pub mod Steps
pub mod Effects
pub mod Members
pub mod Owners
pub mod Transfer
pub mod Invites
pub mod Escalation
use labrinth.Base.{
  ℕ, String, Bool, true, false, not, ◌&&◌, Option, none, some, List, [], ◌∷◌, ◌++◌, map, any,
  filterb, find, ◌==◌, str_eq, if◌then◌else◌, Result, ok, err,
}
use labrinth.Base.Int.{ℤ, pos, leb_ℤ}
use labrinth.Flags.{Bitflags, from_bits}
use labrinth.Users.{DbUser, User, public_user}

abbrev pub owner_role : String
owner_role = "Owner"

abbrev pub default_role : String
default_role = "Member"

-- A row of `team_members`.
pub record DbTeamMember (Decimal : Type 0) : Type 0 where
  pub id : ℕ
  pub team_id : ℕ
  pub user_id : ℕ
  pub role : String
  pub permissions : ℕ
  pub accepted : Bool
  pub payouts_split : Decimal
  pub ordering : ℤ

-- The member that the API shows.
pub record TeamMember (Decimal : Type 0) : Type 0 where
  pub team_id : ℕ
  pub user : User Decimal
  pub role : String
  pub permissions : Option ℕ
  pub accepted : Bool
  pub payouts_split : Option Decimal
  pub ordering : ℤ

-- `TeamMember::from` of src/models/teams.rs
unfoldable pub team_member :
    {Decimal : Type 0} → DbTeamMember Decimal → DbUser Decimal → Bool → TeamMember Decimal
team_member row user override_permissions = record {
  team_id = row.team_id;
  user = public_user user;
  role = row.role;
  permissions = if override_permissions then none else some row.permissions;
  accepted = row.accepted;
  payouts_split = if override_permissions then none else some row.payouts_split;
  ordering = row.ordering;
}

-- `Permissions::from_bits(..).unwrap_or_default()`
pub read_permissions : Bitflags → ℕ → ℕ
unfolding from_bits Permissions.default
read_permissions flags bits = elim (from_bits flags Permissions.all bits) [
  | none ↦ Permissions.default flags
  | some p ↦ p
]

abbrev pub Rows : Type 0 → Type 0
Rows Decimal = List (DbTeamMember Decimal)

module _ {Decimal : Type 0} where
  unfoldable pub read_row : Bitflags → DbTeamMember Decimal → DbTeamMember Decimal
  unfolding read_permissions
  read_row flags row = record row { permissions = read_permissions flags row.permissions }

  -- `WHERE (team_id = $1 AND user_id = $2)`
  abbrev pub is_of : ℕ → ℕ → DbTeamMember Decimal → Bool
  is_of team user row = row.team_id == team && row.user_id == user

  -- `ORDER BY ordering`
  unfoldable pub insert_ordered : DbTeamMember Decimal → Rows Decimal → Rows Decimal
  insert_ordered row [] = row ∷ []
  insert_ordered row (r ∷ rows) =
      if leb_ℤ row.ordering r.ordering then row ∷ r ∷ rows else r ∷ insert_ordered row rows

  unfoldable pub order_by_ordering : Rows Decimal → Rows Decimal
  unfolding insert_ordered leb_ℤ
  order_by_ordering [] = []
  order_by_ordering (row ∷ rows) = insert_ordered row (order_by_ordering rows)

  unfoldable pub get_from_user_id_many : Bitflags → List ℕ → ℕ → Rows Decimal → Rows Decimal
  unfolding order_by_ordering read_row
  get_from_user_id_many flags teams user rows = map (read_row flags) (
      order_by_ordering (
        filterb (λ row. any (λ t. row.team_id == t) teams && row.user_id == user && row.accepted)
          rows))

  abbrev pub first : Rows Decimal → Option (DbTeamMember Decimal)
  first [] = none
  first (row ∷ rows) = some row

  -- Does not return pending members.
  unfoldable pub get_from_user_id : Bitflags → ℕ → ℕ → Rows Decimal → Option (DbTeamMember Decimal)
  unfolding get_from_user_id_many
  get_from_user_id flags team user rows = first (get_from_user_id_many flags (team ∷ []) user rows)

  -- Including pending members; the first of the rows, of which there is at most one.
  unfoldable pub get_from_user_id_pending :
      Bitflags → ℕ → ℕ → Rows Decimal → Option (DbTeamMember Decimal)
  unfolding read_row
  get_from_user_id_pending flags team user rows = elim (find (is_of team user) rows) [
    | none ↦ none
    | some row ↦ some (read_row flags row)
  ]

  -- The columns `payouts_split` and `ordering` are not in the statement: the table's defaults.
  unfoldable pub insert_member : Decimal → DbTeamMember Decimal → Rows Decimal → Rows Decimal
  insert_member zero' row rows =
      rows ++ (record row { payouts_split = zero'; ordering = pos 0 } ∷ [])

  -- The owner is never deleted.
  unfoldable pub delete_member : ℕ → ℕ → Rows Decimal → Rows Decimal
  delete_member team user rows =
      filterb (λ row. not (is_of team user row && not (str_eq row.role owner_role))) rows

-- The changes that `edit_team_member` is given; `accepted` is only ever set.
pub record Edit (Decimal : Type 0) : Type 0 where
  pub permissions : Option ℕ
  pub role : Option String
  pub accepted : Option Bool
  pub payouts_split : Option Decimal
  pub ordering : Option ℤ

abbrev set {ℓ} : {A : Type ℓ} → Option A → A → A
set none old = old
set (some new) old = new

abbrev set_accepted : Option Bool → Bool → Bool
set_accepted (some true) old = true
set_accepted _ old = old

module _ {Decimal : Type 0} where
  unfoldable pub edit_row : Edit Decimal → DbTeamMember Decimal → DbTeamMember Decimal
  edit_row e row = record row {
    permissions = set e.permissions row.permissions;
    role = set e.role row.role;
    accepted = set_accepted e.accepted row.accepted;
    payouts_split = set e.payouts_split row.payouts_split;
    ordering = set e.ordering row.ordering;
  }

  -- The `UPDATE` statements, each for the rows of the member.
  unfoldable pub edit_team_member : ℕ → ℕ → Edit Decimal → Rows Decimal → Rows Decimal
  unfolding edit_row
  edit_team_member team user e rows =
      map (λ row. if is_of team user row then edit_row e row else row) rows
