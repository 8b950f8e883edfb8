-- ===== src/Projects/Unapproved.antt =====
-- A project that no moderator has approved is not published.
use labrinth.Base.{
  ℕ, String, ◌≡◌, ◌≢◌, inl, inr, refl, sym, ◌∙◌, Bool, true, false, ◌&&◌, List, ok, arith,
  Bool-cases, if◌then◌else◌, ◌==◌, All-map, All-Memᴰ, str_eq, All,
}
use labrinth.Base.Int.{ℤ}
use labrinth.Flags.{Bitflags}
use labrinth.Users.Role
use labrinth.Api.{no_content}
use labrinth.Status.Project
use labrinth.Status.Project.{ProjectStatus}
use labrinth.Teams.Routes.{Auth}
use labrinth.Projects.{ModRow, Env}
use labrinth.Projects.Columns.{Editor}
use labrinth.Projects.Edit.{Db, is_processing, may_set}
use labrinth.Projects.Permitted.{Permitted}
use labrinth.Projects.Edited.{editor, Edited, project_edit-Edited}
use labrinth.Projects.Schedule.{
  SchedulingData, schedule_row, project_schedule, release_row, release, before,
}
use labrinth.Projects.Follow.{count, increment, decrement}
use labrinth.Projects.Follows.{project_follow_cases, project_unfollow_cases}
use labrinth.Projects.Found.{get_project-Memᴰ, project_schedule_cases}
use labrinth.Projects.Steps.{
  NoModerator, Step, edit, schedule, follow, unfollow, release_due, Reach, here, next,
}

-- A status that is neither an approved one nor a set time of release.
abbrev pub Waiting : String → Type 0
Waiting status =
    (Project.is_approved (Project.from_str status) ≡ false)
    × (str_eq status (Project.as_str ProjectStatus.scheduled) ≡ false)

-- The rows of one project wait for approval.
abbrev pub Waits : ℕ → ModRow → Type 0
Waits id m = m.id ≡ id → Waiting m.status

abbrev pub Unapproved : ℕ → List ModRow → Type 0
Unapproved id mods = All (Waits id) mods

if-Waits :
    (id : ℕ) (b : Bool) (x y : ModRow)
    → (b ≡ true → Waits id x)
    → Waits id y
    → Waits id (if b then x else y)
if-Waits id true x y h k = h refl
if-Waits id false x y h k = k

processing-Waiting : (s : ProjectStatus) → is_processing s ≡ true → Waiting (Project.as_str s)
unfolding Project.as_str Project.from_str Project.is_approved
processing-Waiting ProjectStatus.processing h = (refl, refl)
processing-Waiting s h = absurd (ground arith)

-- Without a moderator, the only status to set on a waiting project is `Processing`.
may_set-Waiting :
    {Decimal : Type 0} (c : Editor Decimal) (s : ProjectStatus)
    → Role.is_mod c.user.role ≡ false
    → Waiting c.item.status
    → may_set c s ≡ true
    → Waiting (Project.as_str s)
unfolding may_set
may_set-Waiting c s none_of (waits, _) may = processing-Waiting s (ground arith)

Permitted-Waiting :
    {Decimal : Type 0} (c : Editor Decimal) (row : ModRow)
    → Role.is_mod c.user.role ≡ false
    → Waiting c.item.status
    → Permitted c c.item row
    → Waiting row.status
Permitted-Waiting c row none_of waits p = elim p.status_set [
  | inl same ↦ rw same waits
  | inr (s, may, set) ↦ rw set (may_set-Waiting c s none_of waits may)
]

count-Unapproved :
    (id project : ℕ) (change : ℤ → ℤ) (mods : List ModRow)
    → Unapproved id mods
    → Unapproved id (count change project mods)
count-Unapproved id project change mods waiting =
    All-map (Waits id) (Waits id) _ mods
      (λ m waits.
        if-Waits id (m.id == project) (record m { follows = change m.follows }) m (λ _. waits)
          waits)
      waiting

release_row-Waits : (id today : ℕ) (m : ModRow) → Waits id m → Waits id (release_row today m)
unfolding release_row
release_row-Waits id today m waits same =
    elim (Bool-cases
      (str_eq m.status (Project.as_str ProjectStatus.scheduled) && before m.approved today)) [
        | inl due ↦ absurd (ground (arith, waits (rw due at same)))
        | inr not_due ↦ rw not_due (waits (rw not_due at same))
      ]

module _ {Decimal : Type 0} (flags : Bitflags) where
  edit-Unapproved :
      (id : ℕ) (env : Env) (auth : Auth Decimal) (string : String) (db db' : Db Decimal)
      → NoModerator auth
      → Edited flags env auth string db db'
      → Unapproved id db.mods
      → Unapproved id db'.mods
  edit-Unapproved id env auth string db db' none_of e h = rw e.replaced (
      All-map (Waits id) (Waits id) _ db.mods
        (λ m waits. if-Waits id (m.id == e.row.id) e.row m (λ _. row-Waits) waits) h)
    where
      row-Waits : Waits id e.row
      row-Waits same =
          Permitted-Waiting (editor flags env e.user e.perms e.item) e.row
            (none_of e.scopes e.user e.logged_in)
            (All-Memᴰ (Waits id) e.item db.mods h
              (get_project-Memᴰ env string db.mods e.item e.found) (sym e.permitted.same_id ∙ same))
            e.permitted

  schedule-Unapproved :
      (id : ℕ) (env : Env) (auth : Auth Decimal) (string : String) (s : SchedulingData)
      (db db' : Db Decimal)
      → project_schedule flags env auth string s db ≡ ok (no_content, db')
      → Unapproved id db.mods
      → Unapproved id db'.mods
  schedule-Unapproved id env auth string s db db' h waiting =
      let (scopes, user, item, _, found, _, approved, _, mods, _) =
        project_schedule_cases flags env auth string s db db' h in
      let there = get_project-Memᴰ env string db.mods item found in
      let other : item.id ≢ id =
        λ same. absurd (ground (arith, All-Memᴰ (Waits id) item db.mods waiting there same)) in
      rw mods (
        All-map (Waits id) (Waits id) _ db.mods
          (λ m waits.
            if-Waits id (m.id == item.id) (schedule_row s.time m) m
              (λ same. λ here. absurd (other (ground arith))) waits)
          waiting)

  release-Unapproved :
      (id today : ℕ) (db : Db Decimal)
      → Unapproved id db.mods
      → Unapproved id (release today db).mods
  unfolding release release_row
  release-Unapproved id today db waiting =
      All-map (Waits id) (Waits id) (release_row today) db.mods (release_row-Waits id today) waiting

  Step-Unapproved :
      {db db' : Db Decimal} (id : ℕ)
      → Step flags db db'
      → Unapproved id db.mods
      → Unapproved id db'.mods
  Step-Unapproved {db} {db'} id (edit env auth string p none_of h) waiting =
      edit-Unapproved id env auth string db db' none_of
        (project_edit-Edited flags env auth string p db db' h) waiting
  Step-Unapproved {db} {db'} id (schedule env auth string s h) waiting =
      schedule-Unapproved id env auth string s db db' h waiting
  Step-Unapproved {db} {db'} id (follow env auth string h) waiting =
      let (scopes, user, item, _, _, _, mods, _) = project_follow_cases env auth string db db' h in
      rw mods (count-Unapproved id item.id increment db.mods waiting)
  Step-Unapproved {db} {db'} id (unfollow env auth string h) waiting =
      let (scopes, user, item, _, _, _, mods, _) =
        project_unfollow_cases env auth string db db' h in
      rw mods (count-Unapproved id item.id decrement db.mods waiting)
  Step-Unapproved {db} id (release_due today) waiting = release-Unapproved id today db waiting

  -- A project that waits for approval is not published by any sequence of edits by users who are
  -- no moderators, of calls that schedule, follow or unfollow a project, and of releases: its
  -- status stays one that is neither approved nor scheduled.
  pub Reach-Unapproved :
      {db db' : Db Decimal} (id : ℕ)
      → Reach flags db db'
      → Unapproved id db.mods
      → Unapproved id db'.mods
  Reach-Unapproved id here waiting = waiting
  Reach-Unapproved id (next before step) waiting =
      Step-Unapproved id step (Reach-Unapproved id before waiting)
