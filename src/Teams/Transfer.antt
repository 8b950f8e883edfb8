-- ===== src/Teams/Transfer.antt =====
-- What a transfer does to the owners of a team.
use labrinth.Base.{
  ℕ, ◌≡◌, ◌≢◌, ◌∙◌, true, false, ◌&&◌, ◌==◌, if◌then◌else◌, arith, Option-cases, inl, inr, ok,
}
use labrinth.Flags.{Bitflags}
use labrinth.Users.{User}
use labrinth.Users.Role
use labrinth.Api.{Response}
use labrinth.Teams.{Rows, read_row, get_from_user_id}
use labrinth.Teams.Routes.{Decimals, Db, Auth, owns_team, transfer_ownership}
use labrinth.Teams.Rows.{get_from_user_id-Memᴰ}
use labrinth.Teams.Effects.{transfer_effect}
use labrinth.Teams.Members.{UniqueMembers}
use labrinth.Teams.Owners.{owner_of, row_of_Memᴰ, row_of-Memᴰ, transferred}

module _ {Decimal : Type 0} (dec : Decimals Decimal) (flags : Bitflags) where
  -- After a transfer the new owner is an owner of the team, and the user who made the transfer, if
  -- another, is none; all other users own what they owned.
  pub transfer-owner_of :
      (auth : Auth Decimal) (team new_owner scopes : ℕ) (user : User Decimal) (db db' : Db Decimal)
      (answer : Response (Unit {0})) (t u : ℕ)
      → auth ≡ ok (scopes, user)
      → transfer_ownership flags auth team new_owner db ≡ ok (answer, db')
      → owner_of t u db'.team_members ≡ (
          if t == team && u == new_owner
          then true
          else if t == team && u == user.id
          then false
          else owner_of t u db.team_members)
  unfolding owner_of
  transfer-owner_of auth team new_owner scopes user db db' answer t u granted run =
      let (user', member, who, owns, found, rows) =
        transfer_effect dec flags auth team db db' answer new_owner run in
      let (row, there, in_team, of_user, accepted, same) =
        get_from_user_id-Memᴰ flags team new_owner member db.team_members found in
      let (r, has) = row_of_Memᴰ team new_owner row db.team_members there in_team of_user in
      let caller : user'.id ≡ user.id = ground arith in
      rw (rows, caller) (transferred team user.id new_owner t u r db.team_members (has))

  -- A user who is no administrator and transfers the ownership was an owner of the team.
  owns-owner_of :
      (user : User Decimal) (team : ℕ) (rows : Rows Decimal)
      → UniqueMembers rows
      → Role.is_admin user.role ≡ false
      → owns_team flags user team rows ≡ ok tt
      → owner_of team user.id rows ≡ true
  unfolding owns_team owner_of read_row
  owns-owner_of user team rows unique plain owns =
      elim (Option-cases (get_from_user_id flags team user.id rows)) [
        | inl e ↦ absurd (ground arith)
        | inr (m, e) ↦
            let (row, there, in_team, of_user, accepted, same) =
              get_from_user_id-Memᴰ flags team user.id m rows e in
            rw (row_of-Memᴰ team user.id row rows unique there in_team of_user) (ground arith)
      ]

  -- If a team has one owner at most, the transfer by a user who is no administrator leaves it with
  -- one owner, the new one.
  pub transfer_sole_owner :
      (auth : Auth Decimal) (team new_owner scopes : ℕ) (user : User Decimal) (db db' : Db Decimal)
      (answer : Response (Unit {0})) (u : ℕ)
      → UniqueMembers db.team_members
      → ((v w : ℕ)
          → owner_of team v db.team_members ≡ true
          → owner_of team w db.team_members ≡ true
          → v ≡ w)
      → Role.is_admin user.role ≡ false
      → auth ≡ ok (scopes, user)
      → transfer_ownership flags auth team new_owner db ≡ ok (answer, db')
      → owner_of team u db'.team_members ≡ (u == new_owner)
  transfer_sole_owner auth team new_owner scopes user db db' answer u unique sole plain granted
        run =
      let (user', member, who, owns, found, rows) =
        transfer_effect dec flags auth team db db' answer new_owner run in
      let caller : user' ≡ user = ground arith in
      let owned = owns-owner_of user team db.team_members unique plain (rw caller at owns) in
      let after =
        transfer-owner_of auth team new_owner scopes user db db' answer team u granted run in
      after ∙ ground (arith, sole u user.id)

  -- The transfer by an administrator who is not the owner leaves the owner in place beside the new
  -- one.
  pub admin_transfer_keeps_owner :
      (auth : Auth Decimal) (team new_owner owner scopes : ℕ) (user : User Decimal)
      (db db' : Db Decimal) (answer : Response (Unit {0}))
      → owner ≢ user.id
      → owner_of team owner db.team_members ≡ true
      → auth ≡ ok (scopes, user)
      → transfer_ownership flags auth team new_owner db ≡ ok (answer, db')
      → (owner_of team owner db'.team_members ≡ true)
        × (owner_of team new_owner db'.team_members ≡ true)
  admin_transfer_keeps_owner auth team new_owner owner scopes user db db' answer other owns granted
        run =
      ground (
        arith,
        transfer-owner_of auth team new_owner scopes user db db' answer team owner granted run,
        transfer-owner_of auth team new_owner scopes user db db' answer team new_owner granted run,
      )
