-- ===== src/Teams/Members.antt =====
-- A user has at most one row in a team.
use labrinth.Base.{
  ℕ, ◌≡◌, refl, Bool, ◌&&◌, Option, none, some, [], ◌∷◌, ◌++◌, find, filterb, ◌==◌, if◌then◌else◌,
  arith, inl, inr,
}
use labrinth.Flags.{Bitflags}
use labrinth.Teams.{
  DbTeamMember, Rows, Edit, is_of, get_from_user_id_pending, insert_member, delete_member, edit_row,
  edit_team_member as update_team_member,
}
use labrinth.Teams.Routes.{Decimals, Db}
use labrinth.Teams.Effects.{join_effect, add_effect, edit_effect, transfer_effect, remove_effect}
use labrinth.Teams.Steps.{Step, join, add, edit, remove, AnyStep, step, transfer, Reach, AnyReach}

module _ {Decimal : Type 0} where
  -- The row of a user in a team.
  abbrev pub row_of : ℕ → ℕ → Rows Decimal → Option (DbTeamMember Decimal)
  row_of team user rows = find (is_of team user) rows

  abbrev pub UniqueMembers : Rows Decimal → Type 0
  UniqueMembers [] = Unit
  UniqueMembers (row ∷ rows) = (row_of row.team_id row.user_id rows ≡ none) × UniqueMembers rows

  -- Where the row of a user is after an update.
  abbrev pub edited :
      Bool → Edit Decimal → Option (DbTeamMember Decimal) → Option (DbTeamMember Decimal)
  edited hit e none = none
  edited hit e (some row) = some (if hit then edit_row e row else row)

  pub row_of-update :
      (team user t u : ℕ) (e : Edit Decimal) (rows : Rows Decimal)
      → row_of t u (update_team_member team user e rows)
        ≡ edited (t == team && u == user) e (row_of t u rows)
  unfolding update_team_member
  row_of-update team user t u e [] = refl
  row_of-update team user t u e (row ∷ rows) = ground (arith, row_of-update team user t u e rows)

  UniqueMembers-update :
      (team user : ℕ) (e : Edit Decimal) (rows : Rows Decimal)
      → UniqueMembers rows
      → UniqueMembers (update_team_member team user e rows)
  unfolding update_team_member
  UniqueMembers-update team user e [] h = tt
  UniqueMembers-update team user e (row ∷ rows) (fresh, h) = ground (
    arith,
    UniqueMembers-update team user e rows h,
    row_of-update team user row.team_id row.user_id e rows,
  )

  row_of-append :
      (t u : ℕ) (row : DbTeamMember Decimal) (rows : Rows Decimal)
      → row_of t u rows ≡ none
      → row_of t u (rows ++ row ∷ []) ≡ (if is_of t u row then some row else none)
  row_of-append t u row [] h = refl
  row_of-append t u row (r ∷ rows) h = ground (arith, row_of-append t u row rows)

  UniqueMembers-append :
      (row : DbTeamMember Decimal) (rows : Rows Decimal)
      → row_of row.team_id row.user_id rows ≡ none
      → UniqueMembers rows
      → UniqueMembers (rows ++ row ∷ [])
  UniqueMembers-append row [] fresh h = (refl, tt)
  UniqueMembers-append row (r ∷ rows) fresh (h, hs) =
      ground (arith, UniqueMembers-append row rows, row_of-append r.team_id r.user_id row rows)

  row_of-filterb :
      (p : DbTeamMember Decimal → Bool) (t u : ℕ) (rows : Rows Decimal)
      → row_of t u rows ≡ none
      → row_of t u (filterb p rows) ≡ none
  row_of-filterb p t u [] h = refl
  row_of-filterb p t u (row ∷ rows) h = ground (arith, row_of-filterb p t u rows)

  UniqueMembers-filterb :
      (p : DbTeamMember Decimal → Bool) (rows : Rows Decimal)
      → UniqueMembers rows
      → UniqueMembers (filterb p rows)
  UniqueMembers-filterb p [] h = tt
  UniqueMembers-filterb p (row ∷ rows) (fresh, h) =
      ground
        (arith, UniqueMembers-filterb p rows h, row_of-filterb p row.team_id row.user_id rows fresh)

  pub pending_none :
      (flags : Bitflags) (t u : ℕ) (rows : Rows Decimal)
      → get_from_user_id_pending flags t u rows ≡ none
      → row_of t u rows ≡ none
  unfolding get_from_user_id_pending
  pending_none flags t u rows h = ground arith

module _ {Decimal : Type 0} (dec : Decimals Decimal) (flags : Bitflags) where
  pub Step-UniqueMembers :
      {db db' : Db Decimal}
      → Step dec flags db db'
      → UniqueMembers db.team_members
      → UniqueMembers db'.team_members
  unfolding insert_member delete_member
  Step-UniqueMembers {db} {db'} (join auth team answer run) h =
      let (user, rows) = join_effect dec flags auth team db db' answer run in
      rw rows (UniqueMembers-update team user _ db.team_members h)
  Step-UniqueMembers {db} {db'} (add auth team new_member new_id n_id answer run) h =
      let (user, member, row, found, permitted, fresh, added, rows) =
        add_effect dec flags auth team db db' answer new_member new_id n_id run in
      let free = pending_none flags team new_member.user_id db.team_members fresh in
      rw rows (UniqueMembers-append _ db.team_members (rw (added.in_team, added.of_user) free) h)
  Step-UniqueMembers {db} {db'} (edit auth team user_id edit_member answer run) h =
      let (user, member, e, f, g, p, r, o, rows) =
        edit_effect dec flags auth team db db' answer user_id edit_member run in
      rw rows (UniqueMembers-update team user_id _ db.team_members h)
  Step-UniqueMembers {db} {db'} (remove auth team user_id answer run) h =
      elim (remove_effect dec flags auth team db db' answer user_id run) [
        | inl same ↦ rw same h
        | inr rows ↦ rw rows (UniqueMembers-filterb _ db.team_members h)
      ]

  AnyStep-UniqueMembers :
      {db db' : Db Decimal}
      → AnyStep dec flags db db'
      → UniqueMembers db.team_members
      → UniqueMembers db'.team_members
  AnyStep-UniqueMembers (step s) h = Step-UniqueMembers s h
  AnyStep-UniqueMembers {db} {db'} (transfer auth team new_owner answer run) h =
      let (user, member, who, owns, found, rows) =
        transfer_effect dec flags auth team db db' answer new_owner run in
      rw rows (
        UniqueMembers-update team new_owner _ _
          (UniqueMembers-update team user.id _ db.team_members h))

  pub Reach-UniqueMembers :
      {db db' : Db Decimal}
      → UniqueMembers db.team_members
      → Reach dec flags db db'
      → UniqueMembers db'.team_members
  Reach-UniqueMembers h Reach.here = h
  Reach-UniqueMembers h (Reach.next r s) = Step-UniqueMembers s (Reach-UniqueMembers h r)

  -- If no user has two rows in a team, none has after any successful calls of the five routes that
  -- change a team: joining, inviting, editing, removing and transferring the ownership.
  pub AnyReach-UniqueMembers :
      {db db' : Db Decimal}
      → UniqueMembers db.team_members
      → AnyReach dec flags db db'
      → UniqueMembers db'.team_members
  AnyReach-UniqueMembers h AnyReach.here = h
  AnyReach-UniqueMembers h (AnyReach.next r s) =
      AnyStep-UniqueMembers s (AnyReach-UniqueMembers h r)
