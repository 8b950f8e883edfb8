-- ===== src/Examples/Access.antt =====
-- Who may see what, at concrete inputs: user 2 is a member of team 7, of project 9.
use mathlib.Core.List.{Memᴰ}
use labrinth.Base.{ℕ, ◌≡◌, ◌↔◌, refl, true, some, [], ◌∷◌}
use labrinth.Users.{User, public_user}
use labrinth.Status.Project
use labrinth.Status.Version
use labrinth.Status.Collection
use labrinth.Auth.Access.{
  ProjectRow, VersionRow, CollectionRow, is_authorized, filter_authorized_projects,
  is_authorized_version, filter_authorized_versions, is_authorized_collection,
  filter_authorized_collections,
}
use labrinth.Auth.Access.Exact.{
  filter_authorized_projects_iff, filter_authorized_versions_iff, filter_authorized_collections_iff,
}
use labrinth.Examples.Teams.{db_user, two_members}

abbrev member : User ℕ
member = public_user (db_user 2 "developer")

abbrev rejected_project : ProjectRow
rejected_project = record { id = 9; team_id = 7; status = Project.rejected }

abbrev draft_version : VersionRow
draft_version = record { id = 4; project_id = 9; status = Version.draft }

abbrev rejected_collection : CollectionRow
rejected_collection = record { id = 5; user_id = 2; status = Collection.rejected }

filter_authorized_projects_iff_example :
    Memᴰ rejected_project (
      filter_authorized_projects
        (rejected_project ∷ [])
        (some member)
        two_members.team_members
        two_members.mods)
    ↔ (Memᴰ rejected_project (rejected_project ∷ [])
        × (is_authorized rejected_project (some member) two_members.team_members ≡ true))
filter_authorized_projects_iff_example =
    filter_authorized_projects_iff (rejected_project ∷ []) (some member) two_members.team_members
      two_members.mods rejected_project refl

filter_authorized_versions_iff_example :
    Memᴰ draft_version (
      filter_authorized_versions
        (draft_version ∷ [])
        (some member)
        two_members.team_members
        two_members.mods)
    ↔ (Memᴰ draft_version (draft_version ∷ [])
        × (is_authorized_version draft_version
              (some member)
              two_members.team_members
              two_members.mods
            ≡ true))
filter_authorized_versions_iff_example =
    filter_authorized_versions_iff (draft_version ∷ []) (some member) two_members.team_members
      two_members.mods draft_version

collection_hidden :
    Memᴰ rejected_collection (
      filter_authorized_collections
        (rejected_collection ∷ [])
        (some member)
        (rejected_collection ∷ []))
    ↔ (Memᴰ rejected_collection (rejected_collection ∷ [])
        × (is_authorized_collection rejected_collection (some member) ≡ true))
collection_hidden =
    filter_authorized_collections_iff (rejected_collection ∷ []) (rejected_collection ∷ [])
      (some member) rejected_collection refl
