-- ===== src/Teams/Effects.antt =====
-- What a successful call of each route has checked, and what it has written.
use labrinth.Base.{
  ℕ, ◌≡◌, ◌⊎◌, inl, inr, true, false, not, ◌&&◌, ◌||◌, Option, none, some, str_eq, arith, ok,
  Option-cases, Result-cases,
}
use labrinth.Flags.{Bitflags}
use labrinth.Users.{User}
use labrinth.Api.{Response}
use labrinth.Teams.{
  DbTeamMember, Edit, owner_role, default_role, get_from_user_id, get_from_user_id_pending,
  insert_member, delete_member, edit_team_member as update_team_member,
}
use labrinth.Teams.Permissions
use labrinth.Teams.Routes.{
  Decimals, Db, Auth, NewTeamMember, EditTeamMember, join_team, add_team_member, edit_team_member,
  transfer_ownership, remove_team_member, current_user, no_edit, is_some, each, owns_team,
}

module _ {Decimal : Type 0} (dec : Decimals Decimal) (flags : Bitflags) (auth : Auth Decimal)
    (team : ℕ) (db db' : Db Decimal) (answer : Response (Unit {0})) where
  pub join_effect :
      join_team flags auth team db ≡ ok (answer, db')
      → (user : ℕ) × (db'.team_members
          ≡ update_team_member team user (record no_edit { accepted = some true }) db.team_members)
  unfolding join_team
  join_effect h = elim (Result-cases (current_user auth)) [
    | inr (x, e) ↦ absurd (ground arith)
    | inl (user, e) ↦
        elim (Option-cases (get_from_user_id_pending flags team user.id db.team_members)) [
          | inl f ↦ absurd (ground arith)
          | inr (member, f) ↦ (user.id, ground arith)
        ]
  ]

  -- The row that `add_team_member` adds.
  pub record Added (new_member : NewTeamMember Decimal) (row : DbTeamMember Decimal) : Type 0 where
    pub in_team : row.team_id ≡ team
    pub of_user : row.user_id ≡ new_member.user_id
    pub pending : row.accepted ≡ false
    pub permitted : row.permissions ≡ new_member.permissions
    pub as_asked : row.role ≡ new_member.role
    pub no_owner : str_eq row.role owner_role ≡ false

  pub add_effect :
      (new_member : NewTeamMember Decimal) (new_id notification_id : Option ℕ)
      → add_team_member dec flags auth team new_member new_id notification_id db ≡ ok (answer, db')
      → (user : User Decimal) × (member : DbTeamMember Decimal) × (row : DbTeamMember Decimal)
        × (get_from_user_id flags team user.id db.team_members ≡ some member)
        × (flags.contains member.permissions new_member.permissions ≡ true)
        × (get_from_user_id_pending flags team new_member.user_id db.team_members ≡ none)
        × Added new_member row
        × (db'.team_members ≡ insert_member (dec.from_ℕ 0) row db.team_members)
  unfolding add_team_member
  add_effect new_member new_id notification_id h = elim (Result-cases (current_user auth)) [
    | inr (x, e) ↦ absurd (ground arith)
    | inl (user, e) ↦ elim (Option-cases (get_from_user_id flags team user.id db.team_members)) [
      | inl f ↦ absurd (ground arith)
      | inr (member, f) ↦ elim (Option-cases new_id) [
        | inl g ↦ absurd (ground arith)
        | inr (id, g) ↦ (
          user,
          member,
          record {
            id = id;
            team_id = team;
            user_id = new_member.user_id;
            role = new_member.role;
            permissions = new_member.permissions;
            accepted = false;
            payouts_split = new_member.payouts_split;
            ordering = new_member.ordering;
          },
          f,
          ground arith,
          ground arith,
          ground arith,
          ground arith,
        )
      ]
    ]
  ]

  -- The changes that an edit asks for.
  abbrev pub edit_of : EditTeamMember Decimal → Edit Decimal
  edit_of e = record {
    permissions = e.permissions;
    role = e.role;
    accepted = none;
    payouts_split = e.payouts_split;
    ordering = e.ordering;
  }

  pub edit_effect :
      (user_id : ℕ) (edit_member : EditTeamMember Decimal)
      → edit_team_member dec flags auth team user_id edit_member db ≡ ok (answer, db')
      → (user : User Decimal) × (member : DbTeamMember Decimal) × (edited : DbTeamMember Decimal)
        × (get_from_user_id flags team user.id db.team_members ≡ some member)
        × (get_from_user_id_pending flags team user_id db.team_members ≡ some edited)
        × (each edit_member.permissions (λ p. flags.contains member.permissions p) ≡ true)
        × (each edit_member.role (λ r. not (str_eq r owner_role)) ≡ true)
        × ((str_eq edited.role owner_role
              && (is_some edit_member.role || is_some edit_member.permissions))
            ≡ false)
        × (db'.team_members ≡ update_team_member team user_id (edit_of edit_member) db.team_members)
  unfolding edit_team_member
  edit_effect user_id edit_member h = elim (Result-cases (current_user auth)) [
    | inr (x, e) ↦ absurd (ground arith)
    | inl (user, e) ↦ elim (Option-cases (get_from_user_id flags team user.id db.team_members)) [
      | inl f ↦ absurd (ground arith)
      | inr (member, f) ↦
          elim (Option-cases (get_from_user_id_pending flags team user_id db.team_members)) [
            | inl g ↦ absurd (ground arith)
            | inr (edited, g) ↦
                (user, member, edited, f, g, ground arith, ground arith, ground arith, ground arith)
          ]
    ]
  ]

  pub transfer_effect :
      (new_owner : ℕ)
      → transfer_ownership flags auth team new_owner db ≡ ok (answer, db')
      → (user : User Decimal) × (member : DbTeamMember Decimal) × (current_user auth ≡ ok user)
        × (owns_team flags user team db.team_members ≡ ok tt)
        × (get_from_user_id flags team new_owner db.team_members ≡ some member)
        × (db'.team_members
            ≡ update_team_member team new_owner
                (record no_edit { permissions = some Permissions.all; role = some owner_role })
                (update_team_member team user.id
                  (record no_edit { role = some default_role })
                  db.team_members))
  unfolding transfer_ownership
  transfer_effect new_owner h = elim (Result-cases (current_user auth)) [
    | inr (x, e) ↦ absurd (ground arith)
    | inl (user, e) ↦ elim (Option-cases (get_from_user_id flags team new_owner db.team_members)) [
      | inl f ↦ absurd (ground arith)
      | inr (member, f) ↦ (user, member, e, ground arith, f, ground arith)
    ]
  ]

  -- Nothing is removed, or the row of a user who is not the owner.
  pub remove_effect :
      (user_id : ℕ)
      → remove_team_member flags auth team user_id db ≡ ok (answer, db')
      → (db' ≡ db) ⊎ (db'.team_members ≡ delete_member team user_id db.team_members)
  unfolding remove_team_member
  remove_effect user_id h = ground arith
