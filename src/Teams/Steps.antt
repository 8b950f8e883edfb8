-- ===== src/Teams/Steps.antt =====
-- What the routes do to the tables, as steps: `Step` is every successful call of a route that leaves
-- the owner alone, `AnyStep` also the transfer of the ownership.
use labrinth.Base.{ℕ, ◌≡◌, Option, ok}
use labrinth.Flags.{Bitflags}
use labrinth.Api.{Response}
use labrinth.Teams.Routes.{
  Decimals, Db, Auth, NewTeamMember, EditTeamMember, join_team, add_team_member, edit_team_member,
  transfer_ownership, remove_team_member,
}

module _ {Decimal : Type 0} (dec : Decimals Decimal) (flags : Bitflags) where
  pub data Step : Db Decimal → Db Decimal → Type 0 where
    join :
        {db db' : Db Decimal} (auth : Auth Decimal) (team : ℕ) (answer : Response (Unit {0}))
        → join_team flags auth team db ≡ ok (answer, db')
        → Step db db'
    add :
        {db db' : Db Decimal} (auth : Auth Decimal) (team : ℕ) (new_member : NewTeamMember Decimal)
        (new_id notification_id : Option ℕ) (answer : Response (Unit {0}))
        → add_team_member dec flags auth team new_member new_id notification_id db
          ≡ ok (answer, db')
        → Step db db'
    edit :
        {db db' : Db Decimal} (auth : Auth Decimal) (team user : ℕ)
        (edit_member : EditTeamMember Decimal) (answer : Response (Unit {0}))
        → edit_team_member dec flags auth team user edit_member db ≡ ok (answer, db')
        → Step db db'
    remove :
        {db db' : Db Decimal} (auth : Auth Decimal) (team user : ℕ) (answer : Response (Unit {0}))
        → remove_team_member flags auth team user db ≡ ok (answer, db')
        → Step db db'

  pub data AnyStep : Db Decimal → Db Decimal → Type 0 where
    step : {db db' : Db Decimal} → Step db db' → AnyStep db db'
    transfer :
        {db db' : Db Decimal} (auth : Auth Decimal) (team new_owner : ℕ)
        (answer : Response (Unit {0}))
        → transfer_ownership flags auth team new_owner db ≡ ok (answer, db')
        → AnyStep db db'

  -- Any number of steps.
  pub data Reach (db : Db Decimal) : Db Decimal → Type 0 where
    here : Reach db db
    next : {db' db'' : Db Decimal} → Reach db db' → Step db' db'' → Reach db db''

  pub data AnyReach (db : Db Decimal) : Db Decimal → Type 0 where
    here : AnyReach db db
    next : {db' db'' : Db Decimal} → AnyReach db db' → AnyStep db' db'' → AnyReach db db''
