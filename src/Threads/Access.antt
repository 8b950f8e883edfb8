-- ===== src/Threads/Access.antt =====
-- Who may see a thread (src/routes/v2/threads.rs).
use labrinth.Base.{
  ℕ, Bool, true, false, not, ◌||◌, ◌&&◌, Option, none, some, List, [], ◌∷◌, ◌++◌, map, any, filterb,
  ◌==◌, if◌then◌else◌,
}
use labrinth.Users.{User, DbUser, public_user}
use labrinth.Users.Role
use labrinth.Teams.{Rows}
use labrinth.Teams.Routes.{Mod}
use labrinth.Auth.Access.{retain_rows, on_project, joined_rows}
use labrinth.Threads.{DbThread, DbThreadMessage, Thread, shown_thread, same_id}
use labrinth.Threads.Kind.{ThreadType}

-- The columns `id`, `reporter` and `closed` of `reports`.
pub record Report : Type 0 where
  pub id : ℕ
  pub reporter : ℕ
  pub closed : Bool

-- The tables that are read.
pub record Tables (Decimal : Type 0) : Type 0 where
  pub team_members : Rows Decimal
  pub mods : List Mod
  pub reports : List Report
  pub users : List (DbUser Decimal)

-- `SELECT EXISTS(SELECT 1 FROM reports WHERE id = $1 AND reporter = $2)`
abbrev pub reported : ℕ → ℕ → List Report → Bool
reported report user reports = any (λ r. r.id == report && r.reporter == user) reports

abbrev pub has_member : ℕ → List ℕ → Bool
has_member user members = any (λ m. m == user) members

abbrev pub is_type : ThreadType → ThreadType → Bool
is_type ThreadType.report ThreadType.report = true
is_type ThreadType.project ThreadType.project = true
is_type ThreadType.direct_message ThreadType.direct_message = true
is_type _ _ = false

abbrev pub ids_of : List (Option ℕ) → List ℕ
ids_of [] = []
ids_of (none ∷ ids) = ids_of ids
ids_of (some id ∷ ids) = id ∷ ids_of ids

-- `SELECT id FROM reports WHERE id = ANY($1) AND reporter = $2`
unfoldable pub report_rows : List ℕ → ℕ → List Report → List ℕ
report_rows ids user reports =
    map (λ r. r.id) (filterb (λ r. any (λ id. r.id == id) ids && r.reporter == user) reports)

abbrev pub typed : ThreadType → List DbThread → List DbThread
typed kind threads = filterb (λ x. is_type x.type_ kind) threads

-- What a pass over the rows of a query leaves to be looked up.
abbrev pub left_over : (ℕ → DbThread → Bool) → List ℕ → List DbThread → List DbThread
left_over hit rows threads = filterb (λ x. not (any (λ row. hit row x) rows)) threads

abbrev pub of_project : ℕ → DbThread → Bool
of_project row x = same_id x.project_id row

abbrev pub of_report : ℕ → DbThread → Bool
of_report row x = same_id x.report_id row

abbrev authors : List DbThreadMessage → List ℕ
authors messages = ids_of (map (λ m. m.author_id) messages)

module _ {Decimal : Type 0} where
  abbrev pub may_read : ThreadType → DbThread → ℕ → Tables Decimal → Bool
  may_read ThreadType.report thread user t = elim thread.report_id [
    | none ↦ false
    | some report ↦ reported report user t.reports
  ]
  may_read ThreadType.project thread user t = elim thread.project_id [
    | none ↦ false
    | some project ↦ on_project project user t.team_members t.mods
  ]
  may_read ThreadType.direct_message thread user t = has_member user thread.members

  unfoldable pub is_authorized_thread : DbThread → User Decimal → Tables Decimal → Bool
  is_authorized_thread thread user t =
      if Role.is_mod user.role then true else may_read thread.type_ thread user.id t

  abbrev pub direct : User Decimal → DbThread → Bool
  direct user thread =
      Role.is_mod user.role
      || (is_type thread.type_ ThreadType.direct_message && has_member user.id thread.members)

  -- The threads that `filter_authorized_threads` keeps.
  unfoldable pub authorized_threads : List DbThread → User Decimal → Tables Decimal → List DbThread
  unfolding retain_rows joined_rows report_rows
  authorized_threads threads user t =
      let returned = filterb (direct user) threads in
      let checked = filterb (λ x. not (direct user x)) threads in
      let project_rows =
        joined_rows (ids_of (map (λ x. x.project_id) (typed ThreadType.project checked))) user.id
          t.team_members t.mods in
      let returned' = retain_rows of_project project_rows checked returned in
      let checked' = left_over of_project project_rows checked in
      let found_reports =
        report_rows (ids_of (map (λ x. x.report_id) (typed ThreadType.report checked'))) user.id
          t.reports in
      retain_rows of_report found_reports checked' returned'

  -- The users of a thread, as `User::get_many_ids` finds them.
  abbrev users_of : DbThread → List (DbUser Decimal) → List (User Decimal)
  users_of thread users =
      map public_user
        (filterb (λ u. has_member u.id (thread.members ++ authors thread.messages)) users)

  unfoldable pub filter_authorized_threads :
      List DbThread → User Decimal → Tables Decimal → List (Thread Decimal)
  unfolding authorized_threads shown_thread public_user
  filter_authorized_threads threads user t =
      map (λ thread. shown_thread thread (users_of thread t.users) user)
        (authorized_threads threads user t)
