-- ===== src/Teams/Invites.antt =====
-- What an invitation writes.
use labrinth.Base.{ℕ, ◌≡◌, refl, ap, ◌∙◌, false, Option, none, some, ok, arith, ◌++◌, ◌∷◌, []}
use labrinth.Base.Int.{pos}
use labrinth.Flags.{Bitflags}
use labrinth.Api.{Response}
use labrinth.Teams.{DbTeamMember, Rows, insert_member}
use labrinth.Teams.Routes.{Decimals, Db, Auth, NewTeamMember, add_team_member}
use labrinth.Teams.Effects.{add_effect}
use labrinth.Teams.Members.{row_of, pending_none}
use labrinth.Teams.Owners.{row_of-append_if}

-- The row of a user after an invitation.
pub record Invited {Decimal : Type 0} (dec : Decimals Decimal) (new_member : NewTeamMember Decimal)
    (row : DbTeamMember Decimal) : Type 0 where
  pub pending : row.accepted ≡ false
  pub role : row.role ≡ new_member.role
  pub permissions : row.permissions ≡ new_member.permissions
  pub no_split : row.payouts_split ≡ dec.from_ℕ 0
  pub no_ordering : row.ordering ≡ pos 0

appended :
    {Decimal : Type 0} (t u : ℕ) (row : DbTeamMember Decimal) (rows rows' : Rows Decimal)
    → rows' ≡ rows ++ row ∷ []
    → row.team_id ≡ t
    → row.user_id ≡ u
    → row_of t u rows ≡ none
    → row_of t u rows' ≡ some row
appended t u row rows rows' same p q free =
    ap (row_of t u) same ∙ row_of-append_if t u row rows (rw (p, q) free) ∙ ground arith

-- A successful invitation makes a pending row for a user who had none in the team, with the role
-- and the permissions that were asked for; the payouts split and the ordering are 0, whatever was
-- asked for.
pub add_team_member-Invited :
    {Decimal : Type 0} (dec : Decimals Decimal) (flags : Bitflags) (auth : Auth Decimal) (team : ℕ)
    (new_member : NewTeamMember Decimal) (new_id notification_id : Option ℕ) (db db' : Db Decimal)
    (answer : Response (Unit {0}))
    → add_team_member dec flags auth team new_member new_id notification_id db ≡ ok (answer, db')
    → (row_of team new_member.user_id db.team_members ≡ none)
      × (row : DbTeamMember Decimal) × (row_of team new_member.user_id db'.team_members ≡ some row)
      × Invited dec new_member row
unfolding insert_member
add_team_member-Invited dec flags auth team new_member new_id n_id db db' answer run =
    let (user, member, row, found, permitted, fresh, added, rows) =
      add_effect dec flags auth team db db' answer new_member new_id n_id run in
    let free = pending_none flags team new_member.user_id db.team_members fresh in
    let written = record row { payouts_split = dec.from_ℕ 0; ordering = pos 0 } in
    (
      free,
      written,
      appended team new_member.user_id written db.team_members db'.team_members rows added.in_team
          added.of_user free,
      record {
        pending = added.pending;
        role = added.as_asked;
        permissions = added.permitted;
        no_split = refl;
        no_ordering = refl;
      },
    )
