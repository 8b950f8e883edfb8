-- ===== src/Teams/Owners.antt =====
-- Who owns a team.
use mathlib.Core.List.{Memᴰ}
use labrinth.Base.{
  ℕ, ◌≡◌, ◌≢◌, refl, ◌∙◌, Bool, true, false, not, ◌&&◌, Option, none, some, [], ◌∷◌, ◌++◌, filterb,
  ◌==◌, str_eq, if◌then◌else◌, arith, Bool-cases, inl, inr,
}
use labrinth.Flags.{Bitflags}
use labrinth.Teams.{
  DbTeamMember, Rows, Edit, owner_role, default_role, is_of, insert_member, delete_member, edit_row,
  read_row, edit_team_member as update_team_member,
}
use labrinth.Teams.Permissions
use labrinth.Teams.Routes.{Decimals, Db, is_some, each, no_edit}
use labrinth.Teams.Rows.{get_from_user_id_pending-Memᴰ}
use labrinth.Teams.Effects.{join_effect, add_effect, edit_effect, edit_of, remove_effect}
use labrinth.Teams.Members.{
  row_of, UniqueMembers, edited, row_of-update, Reach-UniqueMembers, pending_none,
}
use labrinth.Teams.Steps.{Step, join, add, edit, remove, Reach}

module _ {Decimal : Type 0} where
  abbrev pub is_owner : Option (DbTeamMember Decimal) → Bool
  is_owner none = false
  is_owner (some row) = str_eq row.role owner_role

  -- Whether a user owns a team.
  unfoldable pub owner_of : ℕ → ℕ → Rows Decimal → Bool
  owner_of team user rows = is_owner (row_of team user rows)

  pub row_of_Memᴰ :
      (t u : ℕ) (row : DbTeamMember Decimal) (rows : Rows Decimal)
      → Memᴰ row rows
      → row.team_id ≡ t
      → row.user_id ≡ u
      → (r : DbTeamMember Decimal) × (row_of t u rows ≡ some r)
  row_of_Memᴰ t u row [] m p q = elim m [ ]
  row_of_Memᴰ t u row (r ∷ rows) (Memᴰ.head e) p q = (r, ground arith)
  row_of_Memᴰ t u row (r ∷ rows) (Memᴰ.tail m) p q = elim (Bool-cases (is_of t u r)) [
    | inl e ↦ (r, ground arith)
    | inr e ↦ let (found, there) = row_of_Memᴰ t u row rows m p q in (found, ground arith)
  ]

  -- Under unique rows, a row of a user is the row of that user.
  pub row_of-Memᴰ :
      (t u : ℕ) (row : DbTeamMember Decimal) (rows : Rows Decimal)
      → UniqueMembers rows
      → Memᴰ row rows
      → row.team_id ≡ t
      → row.user_id ≡ u
      → row_of t u rows ≡ some row
  row_of-Memᴰ t u row [] h m p q = elim m [ ]
  row_of-Memᴰ t u row (r ∷ rows) h (Memᴰ.head e) p q = ground arith
  row_of-Memᴰ t u row (r ∷ rows) (fresh, h) (Memᴰ.tail m) p q =
      ground (arith, row_of-Memᴰ t u row rows h m p q)

  pub row_of-append_if :
      (t u : ℕ) (row : DbTeamMember Decimal) (rows : Rows Decimal)
      → row_of row.team_id row.user_id rows ≡ none
      → row_of t u (rows ++ row ∷ []) ≡ (if is_of t u row then some row else row_of t u rows)
  row_of-append_if t u row [] h = refl
  row_of-append_if t u row (r ∷ rows) h = ground (arith, row_of-append_if t u row rows)

  abbrev kept :
      (DbTeamMember Decimal → Bool) → Option (DbTeamMember Decimal) → Option (DbTeamMember Decimal)
  kept keep none = none
  kept keep (some row) = if keep row then some row else none

  pub is_of_same :
      (t u : ℕ) (r : DbTeamMember Decimal) → is_of t u r ≡ true → (r.team_id ≡ t) × (r.user_id ≡ u)
  is_of_same t u r h = ground arith

  row_of-filterb-kept :
      (keep : DbTeamMember Decimal → Bool) (t u : ℕ) (rows : Rows Decimal)
      → UniqueMembers rows
      → row_of t u (filterb keep rows) ≡ kept keep (row_of t u rows)
  row_of-filterb-kept keep t u [] h = refl
  row_of-filterb-kept keep t u (r ∷ rows) (fresh, h) = elim (Bool-cases (is_of t u r)) [
    | inl hit ↦
        let (p, q) = is_of_same t u r hit in
        let gone : row_of t u rows ≡ none = rw (p, q) at fresh in
        let ih = row_of-filterb-kept keep t u rows h in
        elim (Bool-cases (keep r)) [
          | inl k ↦ rw (k, hit, k) refl
          | inr k ↦ rw (k, hit, k, ih, gone) refl
        ]
    | inr miss ↦
        let ih = row_of-filterb-kept keep t u rows h in
        elim (Bool-cases (keep r)) [ inl k ↦ rw (k, miss) ih | inr k ↦ rw (k, miss) ih ]
  ]

  owner_of-update_other :
      (team user t u : ℕ) (e : Edit Decimal) (rows : Rows Decimal)
      → e.role ≡ none
      → owner_of t u (update_team_member team user e rows) ≡ owner_of t u rows
  unfolding owner_of edit_row
  owner_of-update_other team user t u e rows h = ground (arith, row_of-update team user t u e rows)

  is_of_key :
      (team user t u : ℕ) (r : DbTeamMember Decimal)
      → is_of t u r ≡ true
      → is_of team user r ≡ (t == team && u == user)
  is_of_key team user t u r h = ground arith

  row_of-is_of :
      (t u : ℕ) (rows : Rows Decimal) (r : DbTeamMember Decimal)
      → row_of t u rows ≡ some r
      → is_of t u r ≡ true
  row_of-is_of t u [] r h = absurd (ground arith)
  row_of-is_of t u (x ∷ rows) r h = elim (Bool-cases (is_of t u x)) [
    | inl hit ↦ let same : x ≡ r = ground arith in rw (← same) hit
    | inr miss ↦ row_of-is_of t u rows r (ground arith)
  ]

  -- A removal leaves every owner and every user who is no owner as they are.
  owner_of-delete :
      (team user t u : ℕ) (rows : Rows Decimal)
      → UniqueMembers rows
      → owner_of t u (delete_member team user rows) ≡ owner_of t u rows
  unfolding owner_of delete_member
  owner_of-delete team user t u rows h =
      rw
        (row_of-filterb-kept (λ row. not (is_of team user row && not (str_eq row.role owner_role)))
          t u rows h)
        (owner_kept team user (row_of t u rows))
    where
      owner_kept :
          (team user : ℕ) (o : Option (DbTeamMember Decimal))
          → is_owner (kept (λ row. not (is_of team user row && not (str_eq row.role owner_role))) o)
            ≡ is_owner o
      owner_kept team user none = refl
      owner_kept team user (some r) = ground arith

  -- The same rows before and after an edit that gives the owner no new role and nobody the
  -- owner's.
  owner_of-edit :
      (team user t u : ℕ) (e : Edit Decimal) (r : DbTeamMember Decimal) (rows : Rows Decimal)
      → row_of team user rows ≡ some r
      → (str_eq r.role owner_role && is_some e.role) ≡ false
      → each e.role (λ role. not (str_eq role owner_role)) ≡ true
      → owner_of t u (update_team_member team user e rows) ≡ owner_of t u rows
  unfolding owner_of edit_row
  owner_of-edit team user t u e r rows found guarded fair =
      elim (Bool-cases (t == team && u == user)) [
        | inl hit ↦ ground (arith, row_of-update team user t u e rows)
        | inr miss ↦ ground (arith, row_of-update team user t u e rows)
      ]

  owner_of-append :
      (t u : ℕ) (row : DbTeamMember Decimal) (rows : Rows Decimal)
      → row_of row.team_id row.user_id rows ≡ none
      → str_eq row.role owner_role ≡ false
      → owner_of t u (rows ++ row ∷ []) ≡ owner_of t u rows
  unfolding owner_of
  owner_of-append t u row rows fresh plain =
      rw (row_of-append_if t u row rows fresh) (elim (Bool-cases (is_of t u row)) [
        | inl hit ↦
            let (p, q) = is_of_same t u row hit in
            let gone : row_of t u rows ≡ none = rw (p, q) at fresh in rw (hit, gone) plain
        | inr miss ↦ rw miss refl
      ])

  abbrev give_owner : Edit Decimal
  give_owner = record no_edit { permissions = some Permissions.all; role = some owner_role }

  abbrev take_owner : Edit Decimal
  take_owner = record no_edit { role = some default_role }

  is_owner-edited :
      (mine theirs : Bool) (o : Option (DbTeamMember Decimal))
      → (theirs ≡ true → o ≢ none)
      → is_owner (edited theirs give_owner (edited mine take_owner o))
        ≡ (if theirs then true else if mine then false else is_owner o)
  unfolding edit_row
  is_owner-edited true true none h = absurd (h refl refl)
  is_owner-edited false true none h = absurd (h refl refl)
  is_owner-edited true false none h = refl
  is_owner-edited false false none h = refl
  is_owner-edited true true (some r) h = refl
  is_owner-edited true false (some r) h = refl
  is_owner-edited false true (some r) h = refl
  is_owner-edited false false (some r) h = refl

  pub transferred :
      (team user new_owner t u : ℕ) (r : DbTeamMember Decimal) (rows : Rows Decimal)
      → row_of team new_owner rows ≡ some r
      → owner_of t u (
          update_team_member team new_owner give_owner
            (update_team_member team user take_owner rows))
        ≡ (if t == team && u == new_owner
            then true
            else if t == team && u == user
            then false
            else owner_of t u rows)
  unfolding owner_of
  transferred team user new_owner t u r rows has =
      rw
        (
          row_of-update team new_owner t u give_owner
              (update_team_member team user take_owner rows),
          row_of-update team user t u take_owner rows,
        )
        (is_owner-edited (t == team && u == user) (t == team && u == new_owner) (row_of t u rows)
          (λ hit gone. ground arith))

module _ {Decimal : Type 0} (dec : Decimals Decimal) (flags : Bitflags) where
  Step-owner_of :
      {db db' : Db Decimal} (t u : ℕ)
      → Step dec flags db db'
      → UniqueMembers db.team_members
      → owner_of t u db'.team_members ≡ owner_of t u db.team_members
  unfolding insert_member read_row
  Step-owner_of {db} {db'} t u (join auth team answer run) h =
      let (user, rows) = join_effect dec flags auth team db db' answer run in
      rw rows (owner_of-update_other team user t u _ db.team_members refl)
  Step-owner_of {db} {db'} t u (add auth team new_member new_id n_id answer run) h =
      let (user, member, row, found, permitted, fresh, added, rows) =
        add_effect dec flags auth team db db' answer new_member new_id n_id run in
      let free = pending_none flags team new_member.user_id db.team_members fresh in
      rw rows (
        owner_of-append t u _ db.team_members (rw (added.in_team, added.of_user) free)
          added.no_owner)
  Step-owner_of {db} {db'} t u (edit auth team user_id edit_member answer run) h =
      let (user, member, e, f, g, p, r, o, rows) =
        edit_effect dec flags auth team db db' answer user_id edit_member run in
      let (row, found, same) =
        get_from_user_id_pending-Memᴰ flags team user_id e db.team_members g in
      rw rows (
        owner_of-edit team user_id t u (edit_of dec flags auth team db db' answer edit_member) row
          db.team_members found (ground arith) r)
  Step-owner_of {db} {db'} t u (remove auth team user_id answer run) h =
      elim (remove_effect dec flags auth team db db' answer user_id run) [
        | inl same ↦ rw same refl
        | inr rows ↦ rw rows (owner_of-delete team user_id t u db.team_members h)
      ]

  -- Joining, inviting, editing and removing, in any number and by anybody, leave the owners of all
  -- teams as they are, if no user has two rows in a team.
  pub Reach-owner_of :
      {db db' : Db Decimal} (t u : ℕ)
      → UniqueMembers db.team_members
      → Reach dec flags db db'
      → owner_of t u db'.team_members ≡ owner_of t u db.team_members
  Reach-owner_of t u h Reach.here = refl
  Reach-owner_of t u h (Reach.next r s) =
      Step-owner_of t u s (Reach-UniqueMembers dec flags h r) ∙ Reach-owner_of t u h r
