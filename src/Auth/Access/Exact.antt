-- ===== src/Auth/Access/Exact.antt =====
-- The filters return what the single checks allow.
use mathlib.Core.List.{Memᴰ}
use labrinth.Base.{
  ℕ, ◌≡◌, ◌↔◌, refl, ◌∙◌, Bool, true, not, ◌||◌, ◌&&◌, Option, none, some, List, [], ◌∷◌, map, any,
  filterb, ◌==◌, arith,
}
use labrinth.Users.{User}
use labrinth.Users.Role
use labrinth.Status.Project
use labrinth.Status.Version
use labrinth.Status.Collection
use labrinth.Teams.{DbTeamMember, Rows, is_of}
use labrinth.Teams.Routes.{Mod}
use labrinth.Auth.Access.{
  ProjectRow, VersionRow, CollectionRow, split, is_member, is_authorized, project_rows, is_project,
  filter_authorized_projects, on_project, is_authorized_version, joined_rows, is_version,
  filter_authorized_versions, is_authorized_collection, collection_rows, is_collection,
  filter_authorized_collections,
}
use labrinth.Auth.Access.Retain.{split-eq, any-append, any-mapped, filter_iff, public_iff}

found_here :
    (x : ProjectRow) (team : ℕ) (mods : List Mod)
    → any (λ m. is_project m x) (filterb (λ m. m.team_id == team) mods)
      ≡ (x.team_id == team && any (λ m. is_project m x) mods)
found_here x team [] = ground arith
found_here x team (m ∷ mods) = ground (arith, found_here x team mods)

any-collection_rows :
    (x : CollectionRow) (ids : List ℕ) (user : ℕ) (table : List CollectionRow)
    → any (λ id. x.id == id) ids ≡ true
    → any (λ c. is_collection c x) (collection_rows ids user table)
      ≡ (user == x.user_id && any (λ c. is_collection c x) table)
unfolding collection_rows
any-collection_rows x ids user [] h = ground arith
any-collection_rows x ids user (c ∷ table) h =
    ground (arith, any-collection_rows x ids user table h)

module _ {Decimal : Type 0} where
  any-project_rows :
      (x : ProjectRow) (teams : List ℕ) (user : ℕ) (rows : Rows Decimal) (mods : List Mod)
      → any (λ t. x.team_id == t) teams ≡ true
      → any (λ m. is_project m x) (project_rows teams user rows mods)
        ≡ (is_member x.team_id user rows && any (λ m. is_project m x) mods)
  unfolding project_rows
  any-project_rows x teams user [] mods h = refl
  any-project_rows x teams user (tm ∷ rows) mods h =
      any-append (λ m. is_project m x) _ (project_rows teams user rows mods)
      ∙ ground (arith, any-project_rows x teams user rows mods h, found_here x tm.team_id mods)

  any-members :
      (project id : ℕ) (p : DbTeamMember Decimal → Bool) (rows : Rows Decimal)
      → any (λ r. project == r) (map (λ tm. id) (filterb p rows)) ≡ (project == id && any p rows)
  any-members project id p [] = ground arith
  any-members project id p (tm ∷ rows) = ground (arith, any-members project id p rows)

  pub any-joined_rows :
      (project : ℕ) (projects : List ℕ) (user : ℕ) (rows : Rows Decimal) (mods : List Mod)
      → any (λ p. project == p) projects ≡ true
      → any (λ r. project == r) (joined_rows projects user rows mods)
        ≡ on_project project user rows mods
  unfolding joined_rows
  any-joined_rows project projects user rows [] h = refl
  any-joined_rows project projects user rows (m ∷ mods) h =
      any-append (λ r. project == r) _ (joined_rows projects user rows mods)
      ∙ ground (
        arith,
        any-joined_rows project projects user rows mods h,
        any-members project m.id (is_of m.team_id user) rows,
      )

  -- If the table has a project, the filter returns it exactly where it was given to the filter and
  -- `is_authorized` lets the user, or a visitor without a user, see it.
  pub filter_authorized_projects_iff :
      (projects : List ProjectRow) (user_option : Option (User Decimal)) (rows : Rows Decimal)
      (mods : List Mod) (x : ProjectRow)
      → any (λ m. is_project m x) mods ≡ true
      → Memᴰ x (filter_authorized_projects projects user_option rows mods)
        ↔ (Memᴰ x projects × (is_authorized x user_option rows ≡ true))
  unfolding filter_authorized_projects is_authorized
  filter_authorized_projects_iff projects none rows mods x stored =
      public_iff (λ p. not (Project.is_hidden p.status)) x projects
  filter_authorized_projects_iff projects (some user) rows mods x stored =
      let shown = λ (p : ProjectRow). not (Project.is_hidden p.status) || Role.is_mod user.role in
      let checked = (split shown true projects).1 in
      let team = λ (p : ProjectRow). p.team_id in
      let (p, q) =
        filter_iff is_project shown projects (project_rows (map team checked) user.id rows mods) x
          (is_member x.team_id user.id rows)
          (λ there.
            any-project_rows x (map team checked) user.id rows mods
              (any-mapped team x checked (rw (split-eq shown projects) there))
            ∙ ground arith) in
      (λ m. ((p m).0, ground (arith, (p m).1)), λ (m, h). q (m, ground arith))

  -- The filter returns a version exactly where it was given to the filter and
  -- `is_authorized_version` lets the user, or a visitor without a user, see it.
  pub filter_authorized_versions_iff :
      (versions : List VersionRow) (user_option : Option (User Decimal)) (rows : Rows Decimal)
      (mods : List Mod) (x : VersionRow)
      → Memᴰ x (filter_authorized_versions versions user_option rows mods)
        ↔ (Memᴰ x versions × (is_authorized_version x user_option rows mods ≡ true))
  unfolding filter_authorized_versions is_authorized_version
  filter_authorized_versions_iff versions none rows mods x =
      public_iff (λ v. not (Version.is_hidden v.status)) x versions
  filter_authorized_versions_iff versions (some user) rows mods x =
      let shown = λ (v : VersionRow). not (Version.is_hidden v.status) || Role.is_mod user.role in
      let checked = (split shown true versions).1 in
      let project = λ (v : VersionRow). v.project_id in
      let (p, q) =
        filter_iff is_version shown versions (joined_rows (map project checked) user.id rows mods) x
          (on_project x.project_id user.id rows mods)
          (λ there.
            any-joined_rows x.project_id (map project checked) user.id rows mods
              (any-mapped project x checked (rw (split-eq shown versions) there))) in
      (λ m. ((p m).0, ground (arith, (p m).1)), λ (m, h). q (m, ground arith))

  -- If the table has a collection, the filter returns it exactly where it was given to the filter
  -- and `is_authorized_collection` lets the user, or a visitor without a user, see it.
  pub filter_authorized_collections_iff :
      (collections table : List CollectionRow) (user_option : Option (User Decimal))
      (x : CollectionRow)
      → any (λ c. is_collection c x) table ≡ true
      → Memᴰ x (filter_authorized_collections collections user_option table)
        ↔ (Memᴰ x collections × (is_authorized_collection x user_option ≡ true))
  unfolding filter_authorized_collections is_authorized_collection
  filter_authorized_collections_iff collections table none x stored =
      public_iff (λ c. not (Collection.is_hidden c.status)) x collections
  filter_authorized_collections_iff collections table (some user) x stored =
      let shown =
        λ (c : CollectionRow). not (Collection.is_hidden c.status) || Role.is_mod user.role in
      let checked = (split shown true collections).1 in
      let id = λ (c : CollectionRow). c.id in
      let (p, q) =
        filter_iff is_collection shown collections (collection_rows (map id checked) user.id table)
          x (user.id == x.user_id)
          (λ there.
            any-collection_rows x (map id checked) user.id table
              (any-mapped id x checked (rw (split-eq shown collections) there))
            ∙ ground arith) in
      (λ m. ((p m).0, ground (arith, (p m).1)), λ (m, h). q (m, ground arith))
