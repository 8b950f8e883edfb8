-- ===== src/Auth/Access.antt =====
-- Who may see a project, a version or a collection: src/auth/checks.rs. The queries are functions
-- of the tables of the teams; the rows that the functions are given are the columns that they
-- read, and the conversion of a row that is returned to its public form is left out.
pub mod Retain
pub mod Exact
use labrinth.Base.{
  ℕ, Bool, true, false, not, ◌||◌, ◌&&◌, Option, none, some, List, [], ◌∷◌, ◌++◌, map, any, filterb,
  ◌==◌, if◌then◌else◌,
}
use labrinth.Users.{User}
use labrinth.Users.Role
use labrinth.Status.Project
use labrinth.Status.Version
use labrinth.Status.Collection
use labrinth.Queue.Auth.{is_empty}
use labrinth.Teams.{DbTeamMember, Rows, is_of}
use labrinth.Teams.Routes.{Mod, is_some}

pub record ProjectRow : Type 0 where
  pub id : ℕ
  pub team_id : ℕ
  pub status : Project.ProjectStatus

pub record VersionRow : Type 0 where
  pub id : ℕ
  pub project_id : ℕ
  pub status : Version.VersionStatus

pub record CollectionRow : Type 0 where
  pub id : ℕ
  pub user_id : ℕ
  pub status : Collection.CollectionStatus

-- The first loop of a filter: what is shown without a look at the tables, and what is looked up.
unfoldable pub split : {A : Type 0} → (A → Bool) → Bool → List A → List A × List A
split shown logged_in [] = ([], [])
split shown logged_in (x ∷ xs) =
    let (returned, checked) = split shown logged_in xs in
    if shown x
    then (x ∷ returned, checked)
    else if logged_in
    then (returned, x ∷ checked)
    else (returned, checked)

-- For each row of the answer, what it stands for goes from the second list to the first.
unfoldable pub retain_rows : {A R : Type 0} → (R → A → Bool) → List R → List A → List A → List A
retain_rows hit [] checked returned = returned
retain_rows hit (row ∷ rows) checked returned =
    retain_rows hit rows (filterb (λ x. not (hit row x)) checked)
      (returned ++ filterb (hit row) checked)

abbrev pub is_project : Mod → ProjectRow → Bool
is_project row x = x.id == row.id && x.team_id == row.team_id

abbrev pub is_version : ℕ → VersionRow → Bool
is_version row x = x.project_id == row

-- `FROM collections c WHERE c.user_id = $2 AND c.id = ANY($1)`
unfoldable pub collection_rows : List ℕ → ℕ → List CollectionRow → List CollectionRow
collection_rows ids user collections =
    filterb (λ c. c.user_id == user && any (λ id. c.id == id) ids) collections

abbrev pub is_collection : CollectionRow → CollectionRow → Bool
is_collection row x = x.id == row.id && x.user_id == row.user_id

module _ {Decimal : Type 0} where
  abbrev pub is_moderator : Option (User Decimal) → Bool
  is_moderator none = false
  is_moderator (some user) = Role.is_mod user.role

  -- `SELECT EXISTS(SELECT 1 FROM team_members WHERE team_id = $1 AND user_id = $2)`
  abbrev pub is_member : ℕ → ℕ → Rows Decimal → Bool
  is_member team user rows = any (is_of team user) rows

  unfoldable pub is_authorized : ProjectRow → Option (User Decimal) → Rows Decimal → Bool
  is_authorized project none rows = not (Project.is_hidden project.status)
  is_authorized project (some user) rows =
      if not (Project.is_hidden project.status)
      then true
      else if Role.is_mod user.role
      then true
      else is_member project.team_id user.id rows

  -- `FROM team_members tm INNER JOIN mods m ON m.team_id = tm.team_id`
  unfoldable pub project_rows : List ℕ → ℕ → Rows Decimal → List Mod → List Mod
  project_rows teams user [] mods = []
  project_rows teams user (tm ∷ rows) mods =
      (if any (λ t. tm.team_id == t) teams && tm.user_id == user
        then filterb (λ m. m.team_id == tm.team_id) mods
        else [])
      ++ project_rows teams user rows mods

  unfoldable pub filter_authorized_projects :
      List ProjectRow → Option (User Decimal) → Rows Decimal → List Mod → List ProjectRow
  unfolding split retain_rows project_rows
  filter_authorized_projects projects user_option rows mods =
      let (returned, checked) =
        split (λ p. not (Project.is_hidden p.status) || is_moderator user_option)
          (is_some user_option) projects in
      elim user_option [
        | none ↦ returned
        | some user ↦
            if is_empty checked
            then returned
            else retain_rows is_project
                (project_rows (map (λ x. x.team_id) checked) user.id rows mods) checked returned
      ]

  -- `FROM mods m INNER JOIN team_members tm ON tm.team_id = m.team_id AND user_id = $2`
  abbrev pub on_project : ℕ → ℕ → Rows Decimal → List Mod → Bool
  on_project project user rows mods =
      any (λ m. m.id == project && is_member m.team_id user rows) mods

  unfoldable pub is_authorized_version :
      VersionRow → Option (User Decimal) → Rows Decimal → List Mod → Bool
  is_authorized_version version none rows mods = not (Version.is_hidden version.status)
  is_authorized_version version (some user) rows mods =
      if not (Version.is_hidden version.status)
      then true
      else if Role.is_mod user.role
      then true
      else on_project version.project_id user.id rows mods

  -- One row for each member that is joined.
  unfoldable pub joined_rows : List ℕ → ℕ → Rows Decimal → List Mod → List ℕ
  joined_rows projects user rows [] = []
  joined_rows projects user rows (m ∷ mods) =
      (if any (λ p. m.id == p) projects
        then map (λ tm. m.id) (filterb (is_of m.team_id user) rows)
        else [])
      ++ joined_rows projects user rows mods

  unfoldable pub filter_authorized_versions :
      List VersionRow → Option (User Decimal) → Rows Decimal → List Mod → List VersionRow
  unfolding split retain_rows joined_rows
  filter_authorized_versions versions user_option rows mods =
      let (returned, checked) =
        split (λ v. not (Version.is_hidden v.status) || is_moderator user_option)
          (is_some user_option) versions in
      elim user_option [
        | none ↦ returned
        | some user ↦
            if is_empty checked
            then returned
            else retain_rows is_version
                (joined_rows (map (λ x. x.project_id) checked) user.id rows mods) checked returned
      ]

  unfoldable pub is_authorized_collection : CollectionRow → Option (User Decimal) → Bool
  is_authorized_collection collection none = not (Collection.is_hidden collection.status)
  is_authorized_collection collection (some user) =
      if Collection.is_hidden collection.status
        && (Role.is_mod user.role || user.id == collection.user_id)
      then true
      else not (Collection.is_hidden collection.status)

  -- The last argument is the table.
  unfoldable pub filter_authorized_collections :
      List CollectionRow → Option (User Decimal) → List CollectionRow → List CollectionRow
  unfolding split retain_rows collection_rows
  filter_authorized_collections collections user_option table =
      let (returned, checked) =
        split (λ c. not (Collection.is_hidden c.status) || is_moderator user_option)
          (is_some user_option) collections in
      elim user_option [
        | none ↦ returned
        | some user ↦
            if is_empty checked
            then returned
            else retain_rows is_collection (collection_rows (map (λ x. x.id) checked) user.id table)
                checked returned
      ]
