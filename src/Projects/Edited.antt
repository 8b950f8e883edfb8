-- ===== src/Projects/Edited.antt =====
-- What `project_edit` as a whole does to the projects.
use labrinth.Base.{
  ℕ, String, ◌≡◌, inl, inr, refl, Option, none, some, ok, err, arith, Option-cases, bind-ok,
}
use labrinth.Flags.{Bitflags}
use labrinth.Users.{User}
use labrinth.Api.{no_content}
use labrinth.Teams.{DbTeamMember, get_from_user_id}
use labrinth.Teams.Permissions.{get_permissions_by_role}
use labrinth.Teams.Routes.{Auth}
use labrinth.Projects.{ModRow, EditProject, Env, get_project}
use labrinth.Projects.Columns.{Editor}
use labrinth.Projects.Edit.{
  Db, replace, permissions_of, validated, edit_row, edit_found, edit_project_found, project_edit,
}
use labrinth.Projects.Permitted.{Permitted}
use labrinth.Projects.Permitted.Whole.{edit_row-Permitted}

module _ {Decimal : Type 0} (flags : Bitflags) (env : Env) where
  abbrev pub editor : User Decimal → ℕ → ModRow → Editor Decimal
  editor user perms item = record {
    flags = flags;
    env = env;
    user = user;
    perms = perms;
    item = item;
  }

  -- One project of the table was changed, by a user with permissions for it, within what these
  -- allow. The members of teams and the follows are as before.
  pub record Edited (auth : Auth Decimal) (string : String) (db db' : Db Decimal) : Type 0 where
    pub scopes : ℕ
    pub user : User Decimal
    pub item : ModRow
    pub row : ModRow
    pub perms : ℕ
    pub logged_in : auth ≡ ok (scopes, user)
    pub found : get_project env string db.mods ≡ some item
    pub has_permissions :
        get_permissions_by_role flags user.role
          (permissions_of (get_from_user_id flags item.team_id user.id db.team_members))
        ≡ some perms
    pub permitted : Permitted (editor user perms item) item row
    pub replaced : db'.mods ≡ replace row db.mods
    pub members_kept : db'.team_members ≡ db.team_members
    pub follows_kept : db'.follows ≡ db.follows

  edit_found-row :
      (c : Editor Decimal) (member : Option (DbTeamMember Decimal)) (p : EditProject)
      (db db' : Db Decimal)
      → edit_found flags env c member p db ≡ ok (no_content, db')
      → (row : ModRow) × (edit_row c db.mods p c.item ≡ ok row)
        × (db'.mods ≡ replace row db.mods)
        × (db'.team_members ≡ db.team_members)
        × (db'.follows ≡ db.follows)
  unfolding edit_found
  edit_found-row c member p db db' h =
      let (row, done, rest) = bind-ok (edit_row c db.mods p c.item) _ (no_content, db') h in
      (row, done, ground arith, ground arith, ground arith)

  edit_project_found-parts :
      (user : User Decimal) (found : Option ModRow) (p : EditProject) (db db' : Db Decimal)
      → edit_project_found flags env user found p db ≡ ok (no_content, db')
      → (item : ModRow) × (perms : ℕ) × (found ≡ some item)
        × (get_permissions_by_role flags user.role
              (permissions_of (get_from_user_id flags item.team_id user.id db.team_members))
            ≡ some perms)
        × (edit_found flags env
              (editor user perms item)
              (get_from_user_id flags item.team_id user.id db.team_members)
              p
              db
            ≡ ok (no_content, db'))
  edit_project_found-parts user none p db db' h = absurd (ground arith)
  edit_project_found-parts user (some item) p db db' h =
      elim (Option-cases (
        get_permissions_by_role flags user.role
          (permissions_of (get_from_user_id flags item.team_id user.id db.team_members)))) [
            | inl e ↦ absurd (ground arith)
            | inr (perms, e) ↦ (item, perms, refl, e, ground arith)
          ]

  -- A successful edit changes one project at most, which the path names, for a user who is
  -- logged in and has permissions for it: its id, team and follows stay; the details change only
  -- with EDIT_DETAILS and the body only with EDIT_BODY; who is no moderator clears the
  -- moderators' messages at most, sets a status only as `may_set` lets them, and neither forces
  -- a demonetization nor lifts one.
  pub project_edit-Edited :
      (auth : Auth Decimal) (string : String) (p : EditProject) (db db' : Db Decimal)
      → project_edit flags env auth string p db ≡ ok (no_content, db')
      → Edited auth string db db'
  unfolding project_edit
  project_edit-Edited (err e) string p db db' h = absurd (ground arith)
  project_edit-Edited (ok (scopes, user)) string p db db' h =
      let (valid, ok_valid, rest) = bind-ok (validated (env.validate p)) _ (no_content, db') h in
      let (item, perms, found, has, edited) =
        edit_project_found-parts user (get_project env string db.mods) p db db' rest in
      let (row, done, mods, members, follows) = edit_found-row _ _ p db db' edited in
      record {
        scopes = scopes;
        user = user;
        item = item;
        row = row;
        perms = perms;
        logged_in = refl;
        found = found;
        has_permissions = has;
        permitted = edit_row-Permitted _ db.mods p item row done;
        replaced = mods;
        members_kept = members;
        follows_kept = follows;
      }
