-- ===== src/Teams/Escalation.antt =====
-- Permissions come from members who have them.
use mathlib.Core.List.{Memᴰ}
use labrinth.Base.{
  ℕ, ◌≡◌, refl, sym, ◌∙◌, ◌⊎◌, inl, inr, Bool, true, some, List, [], ◌∷◌, ◌++◌, map, filterb,
  if◌then◌else◌, arith, ap,
}
use labrinth.Flags.{Bitflags, from_bits}
use labrinth.Flags.Laws.{contains_trans}
use labrinth.Teams.{
  DbTeamMember, Rows, Edit, is_of, read_row, get_from_user_id, insert_member, delete_member,
  edit_row, edit_team_member as update_team_member,
}
use labrinth.Teams.Permissions
use labrinth.Teams.Routes.{Decimals, Db}
use labrinth.Teams.Rows.{get_from_user_id-Memᴰ, Memᴰ-filterb}
use labrinth.Teams.Effects.{join_effect, add_effect, edit_effect, edit_of, remove_effect}
use labrinth.Teams.Steps.{Step, join, add, edit, remove, Reach}

module _ {A : Type 0} where
  Memᴰ-map : (f : A → A) (y : A) (xs : List A) → Memᴰ y (map f xs) → (x : A) × Memᴰ x xs × (y ≡ f x)
  Memᴰ-map f y [] m = elim m [ ]
  Memᴰ-map f y (x ∷ xs) (Memᴰ.head e) = (x, Memᴰ.head refl, e)
  Memᴰ-map f y (x ∷ xs) (Memᴰ.tail m) =
      let (z, there, e) = Memᴰ-map f y xs m in (z, Memᴰ.tail there, e)

  Memᴰ-append : (x y : A) (xs : List A) → Memᴰ x (xs ++ y ∷ []) → Memᴰ x xs ⊎ (x ≡ y)
  Memᴰ-append x y [] (Memᴰ.head e) = inr e
  Memᴰ-append x y [] (Memᴰ.tail m) = elim m [ ]
  Memᴰ-append x y (z ∷ xs) (Memᴰ.head e) = inl (Memᴰ.head e)
  Memᴰ-append x y (z ∷ xs) (Memᴰ.tail m) = elim (Memᴰ-append x y xs m) [
    | inl there ↦ inl (Memᴰ.tail there)
    | inr e ↦ inr e
  ]

module _ {Decimal : Type 0} (flags : Bitflags) where
  -- Some row of the team, accepted or pending, has these permissions.
  abbrev pub Held : ℕ → ℕ → Rows Decimal → Type 0
  Held team permissions rows =
      (row : DbTeamMember Decimal) × Memᴰ row rows
      × (row.team_id ≡ team)
      × (flags.contains row.permissions permissions ≡ true)

  -- The stored bits are permissions.
  abbrev pub AreValid : Rows Decimal → Type 0
  AreValid rows =
      (row : DbTeamMember Decimal)
      → Memᴰ row rows
      → flags.contains Permissions.all row.permissions ≡ true

  read_row_valid :
      (row : DbTeamMember Decimal)
      → flags.contains Permissions.all row.permissions ≡ true
      → (read_row flags row).permissions ≡ row.permissions
  unfolding read_row from_bits
  read_row_valid row h = ground arith

  -- The caller of a route is a row of the team with the permissions that the route sees.
  member_Held :
      (team user : ℕ) (m : DbTeamMember Decimal) (rows : Rows Decimal) (p : ℕ)
      → AreValid rows
      → get_from_user_id flags team user rows ≡ some m
      → flags.contains m.permissions p ≡ true
      → Held team p rows × (flags.contains Permissions.all p ≡ true)
  unfolding read_row
  member_Held team user m rows p valid found has =
      let (row, there, in_team, of_user, accepted, same) =
        get_from_user_id-Memᴰ flags team user m rows found in
      let bits : m.permissions ≡ row.permissions =
        ap (λ (r : DbTeamMember Decimal). r.permissions) same
        ∙ read_row_valid row (valid row there) in
      let has' : flags.contains row.permissions p ≡ true = rw bits at has in
      ((row, there, in_team, has'), contains_trans flags _ row.permissions p (valid row there) has')

  -- Both facts that a step keeps.
  abbrev pub NoMore : Rows Decimal → Rows Decimal → Type 0
  NoMore rows rows' = AreValid rows' × ((team p : ℕ) → Held team p rows' → Held team p rows)

  filterb-NoMore :
      (keep : DbTeamMember Decimal → Bool) (rows : Rows Decimal)
      → AreValid rows
      → NoMore rows (filterb keep rows)
  filterb-NoMore keep rows valid = (
    λ row m. valid row (Memᴰ-filterb keep row rows m).0,
    λ team p (row, m, in_team, has). (row, (Memᴰ-filterb keep row rows m).0, in_team, has),
  )

  append_NoMore :
      (row : DbTeamMember Decimal) (rows : Rows Decimal) (team : ℕ)
      → AreValid rows
      → row.team_id ≡ team
      → Held team row.permissions rows
      → flags.contains Permissions.all row.permissions ≡ true
      → NoMore rows (rows ++ row ∷ [])
  append_NoMore row rows team valid in_team (source, there, source_team, has) small = (
    λ r m. elim (Memᴰ-append r row rows m) [ inl old ↦ valid r old | inr e ↦ rw e small ],
    λ t p (r, m, r_team, r_has). elim (Memᴰ-append r row rows m) [
      | inl old ↦ (r, old, r_team, r_has)
      | inr e ↦ (
        source,
        there,
        source_team ∙ sym in_team ∙ sym (ap (λ (x : DbTeamMember Decimal). x.team_id) e) ∙ r_team,
        contains_trans flags _ row.permissions p has (rw e at r_has),
      )
    ],
  )

  abbrev at : ℕ → ℕ → Edit Decimal → DbTeamMember Decimal → DbTeamMember Decimal
  at team user e row = if is_of team user row then edit_row e row else row

  at_team :
      (team user : ℕ) (e : Edit Decimal) (row : DbTeamMember Decimal)
      → (at team user e row).team_id ≡ row.team_id
  unfolding edit_row
  at_team team user e row = ground arith

  -- An update leaves the permissions of a row, or writes its own to a row of the team.
  at_permissions :
      (team user : ℕ) (e : Edit Decimal) (row : DbTeamMember Decimal)
      → ((at team user e row).permissions ≡ row.permissions)
        ⊎ ((e.permissions ≡ some (at team user e row).permissions) × (row.team_id ≡ team))
  unfolding edit_row
  at_permissions team user e row = ground arith

  update_NoMore :
      (team user : ℕ) (e : Edit Decimal) (rows : Rows Decimal)
      → AreValid rows
      → ((q : ℕ)
          → e.permissions ≡ some q
          → Held team q rows × (flags.contains Permissions.all q ≡ true))
      → NoMore rows (update_team_member team user e rows)
  unfolding update_team_member
  update_NoMore team user e rows valid source = (
    λ row m.
        let (x, there, same) = Memᴰ-map (at team user e) row rows m in
        rw same (elim (at_permissions team user e x) [
          | inl old ↦ rw old (valid x there)
          | inr (new, in_team) ↦ (source _ new).1
        ]),
    λ t p (row, m, in_team, has).
        let (x, there, same) = Memᴰ-map (at team user e) row rows m in
        let team_x : x.team_id ≡ t =
          sym (at_team team user e x)
          ∙ sym (ap (λ (r : DbTeamMember Decimal). r.team_id) same)
          ∙ in_team in
        let has' : flags.contains (at team user e x).permissions p ≡ true = rw same at has in
        elim (at_permissions team user e x) [
          | inl old ↦ (x, there, team_x, rw old at has')
          | inr (new, in_x) ↦
              let ((src, src_there, src_team, src_has), small) = source _ new in
              (
                src,
                src_there,
                src_team ∙ sym in_x ∙ team_x,
                contains_trans flags src.permissions (at team user e x).permissions p src_has has',
              )
        ],
  )

module _ {Decimal : Type 0} (dec : Decimals Decimal) (flags : Bitflags) where
  Step-NoMore :
      {db db' : Db Decimal}
      → Step dec flags db db'
      → AreValid flags db.team_members
      → NoMore flags db.team_members db'.team_members
  unfolding insert_member delete_member
  Step-NoMore {db} {db'} (join auth team answer run) h =
      let (user, rows) = join_effect dec flags auth team db db' answer run in
      rw rows (update_NoMore flags team user _ db.team_members h (λ q e. cc))
  Step-NoMore {db} {db'} (add auth team new_member new_id n_id answer run) h =
      let (user, member, row, found, permitted, fresh, added, rows) =
        add_effect dec flags auth team db db' answer new_member new_id n_id run in
      let has : flags.contains member.permissions row.permissions ≡ true =
        rw added.permitted permitted in
      let (source, small) =
        member_Held flags team user.id member db.team_members row.permissions h found has in
      rw rows (append_NoMore flags _ db.team_members team h added.in_team source small)
  Step-NoMore {db} {db'} (edit auth team user_id edit_member answer run) h =
      let (user, member, e, f, g, p, r, o, rows) =
        edit_effect dec flags auth team db db' answer user_id edit_member run in
      rw rows (
        update_NoMore flags team user_id (edit_of dec flags auth team db db' answer edit_member)
          db.team_members h
          (λ q asked. member_Held flags team user.id member db.team_members q h f (ground arith)))
  Step-NoMore {db} {db'} (remove auth team user_id answer run) h =
      elim (remove_effect dec flags auth team db db' answer user_id run) [
        | inl same ↦ rw same (h, λ team p held. held)
        | inr rows ↦ rw rows (filterb-NoMore flags _ db.team_members h)
      ]

  Reach-NoMore :
      {db db' : Db Decimal}
      → AreValid flags db.team_members
      → Reach dec flags db db'
      → NoMore flags db.team_members db'.team_members
  Reach-NoMore h Reach.here = (h, λ team p held. held)
  Reach-NoMore h (Reach.next r s) =
      let (valid, less) = Reach-NoMore h r in
      let (valid', less') = Step-NoMore s valid in
      (valid', λ team p held. less team p (less' team p held))

  -- From tables whose stored bits are permissions, a set of permissions that some row of a team
  -- has after any number of successful joins, invitations, edits and removals by anybody, some row
  -- of that team had before.
  pub Reach-Held :
      {db db' : Db Decimal} (team permissions : ℕ)
      → AreValid flags db.team_members
      → Reach dec flags db db'
      → Held flags team permissions db'.team_members
      → Held flags team permissions db.team_members
  Reach-Held team permissions valid r held = (Reach-NoMore valid r).1 team permissions held
