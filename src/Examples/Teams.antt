-- ===== src/Examples/Teams.antt =====
-- The routes of a team at concrete inputs: user 1 owns team 7, in which user 2 is a member.
use mathlib.Core.List.{Memᴰ}
use labrinth.Base.{
  ℕ, ◌≡◌, ◌≢◌, refl, String, Bool, true, false, none, some, [], ◌∷◌, ltb, arith, ok, ◌==◌, ◌&&◌,
  if◌then◌else◌,
}
use labrinth.Base.Int.{pos}
use labrinth.Flags.{from_bits}
use labrinth.Flags.Bits.{bits}
use labrinth.Users.{DbUser, public_user}
use labrinth.Users.Role
use labrinth.Api.{no_content}
use labrinth.Notifications.{insert, team_invite}
use labrinth.Teams.{
  DbTeamMember, owner_role, default_role, get_from_user_id, get_from_user_id_pending, insert_member,
  edit_team_member as update_team_member,
}
use labrinth.Teams.Permissions
use labrinth.Teams.Routes.{
  Decimals, Db, Auth, NewTeamMember, join_team, add_team_member, transfer_ownership,
}
use labrinth.Teams.Steps.{join, add, transfer, Reach, AnyReach}
use labrinth.Teams.Members.{row_of, UniqueMembers, AnyReach-UniqueMembers}
use labrinth.Teams.Owners.{owner_of, Reach-owner_of}
use labrinth.Teams.Transfer.{transfer-owner_of, transfer_sole_owner, admin_transfer_keeps_owner}
use labrinth.Teams.Invites.{Invited, add_team_member-Invited}
use labrinth.Teams.Escalation.{Held, AreValid, Reach-Held}

abbrev naturals : Decimals ℕ
naturals = record { lt = ltb; from_ℕ = λ n. n }

abbrev pub db_user : ℕ → String → DbUser ℕ
db_user id role = record {
  id = id;
  github_id = none;
  discord_id = none;
  gitlab_id = none;
  google_id = none;
  steam_id = none;
  microsoft_id = none;
  password = none;
  totp_secret = none;
  username = "someone";
  name = none;
  email = none;
  email_verified = false;
  avatar_url = none;
  bio = none;
  created = 0;
  role = role;
  badges = 0;
  balance = 0;
  payout_wallet = none;
  payout_wallet_type = none;
  payout_address = none;
}

abbrev row : ℕ → String → ℕ → Bool → DbTeamMember ℕ
row user role permissions accepted = record {
  id = user;
  team_id = 7;
  user_id = user;
  role = role;
  permissions = permissions;
  accepted = accepted;
  payouts_split = 0;
  ordering = pos 0;
}

abbrev pub two_members : Db ℕ
two_members = record {
  team_members = row 1 owner_role Permissions.all true ∷ row 2 default_role 0 true ∷ [];
  mods = record { id = 9; team_id = 7 } ∷ [];
  users = db_user 1 "developer" ∷ db_user 2 "developer" ∷ db_user 3 "developer" ∷ [];
  notifications = [];
}

abbrev pub logged_in : ℕ → String → Auth ℕ
logged_in id role = ok (0, public_user (db_user id role))

abbrev newcomer : NewTeamMember ℕ
newcomer = record {
  user_id = 3;
  role = "Tester";
  permissions = 16;
  payouts_split = 100;
  ordering = pos 5;
}

-- The owner invites user 3.
abbrev invited_db : Db ℕ
invited_db = record two_members {
  team_members =
      row 1 owner_role Permissions.all true
      ∷ row 2 default_role 0 true
      ∷ row 3 "Tester" 16 false
      ∷ [];
  notifications =
      record { id = 50; user_id = 3; body = team_invite 9 7 1 "Tester"; read = false } ∷ [];
}

invite :
    add_team_member naturals bits
      (logged_in 1 "developer")
      7
      newcomer
      (some 3)
      (some 50)
      two_members
    ≡ ok (no_content, invited_db)
unfolding add_team_member get_from_user_id public_user labrinth.Flags.Bits.bits_contain
    get_from_user_id_pending insert_member insert
invite = refl

-- User 3 accepts.
abbrev joined_db : Db ℕ
joined_db = record invited_db {
  team_members =
      row 1 owner_role Permissions.all true
      ∷ row 2 default_role 0 true
      ∷ row 3 "Tester" 16 true
      ∷ [];
}

accept : join_team bits (logged_in 3 "developer") 7 invited_db ≡ ok (no_content, joined_db)
unfolding join_team get_from_user_id_pending public_user labrinth.Flags.Bits.bits_contain
    update_team_member
accept = refl

-- The ownership of team 7 goes to user 2.
abbrev given_db : Db ℕ
given_db = record two_members {
  team_members =
      row 1 default_role Permissions.all true ∷ row 2 owner_role Permissions.all true ∷ [];
}

give : transfer_ownership bits (logged_in 1 "developer") 7 2 two_members ≡ ok (no_content, given_db)
unfolding transfer_ownership get_from_user_id public_user labrinth.Flags.Bits.bits_contain
    update_team_member Role.is_admin Role.from_string
give = refl

-- An administrator who is user 3 gives the ownership to user 2, beside user 1.
abbrev two_owners : Db ℕ
two_owners = record two_members {
  team_members = row 1 owner_role Permissions.all true ∷ row 2 owner_role Permissions.all true ∷ [];
}

admin_gives :
    transfer_ownership bits (logged_in 3 "admin") 7 2 two_members ≡ ok (no_content, two_owners)
unfolding transfer_ownership get_from_user_id public_user labrinth.Flags.Bits.bits_contain
    update_team_member Role.is_admin Role.from_string
admin_gives = refl

two_steps : Reach naturals bits two_members joined_db
two_steps =
    Reach.next
      (Reach.next Reach.here
        (add (logged_in 1 "developer") 7 newcomer (some 3) (some 50) no_content invite))
      (join (logged_in 3 "developer") 7 no_content accept)

three_steps : AnyReach naturals bits two_members given_db
three_steps = AnyReach.next AnyReach.here (transfer (logged_in 1 "developer") 7 2 no_content give)

unique : UniqueMembers two_members.team_members
unique = (refl, (refl, tt))

valid : AreValid bits two_members.team_members
unfolding labrinth.Flags.Bits.bits_contain
valid r (Memᴰ.head e) = rw e refl
valid r (Memᴰ.tail (Memᴰ.head e)) = rw e refl
valid r (Memᴰ.tail (Memᴰ.tail m)) = elim m [ ]

newcomer_permitted : Held bits 7 16 joined_db.team_members
unfolding labrinth.Flags.Bits.bits_contain
newcomer_permitted = (row 3 "Tester" 16 true, Memᴰ.tail (Memᴰ.tail (Memᴰ.head refl)), refl, refl)

Reach-Held_example : Held bits 7 16 two_members.team_members
Reach-Held_example = Reach-Held naturals bits 7 16 valid two_steps newcomer_permitted

Reach-owner_of_example : owner_of 7 1 joined_db.team_members ≡ owner_of 7 1 two_members.team_members
Reach-owner_of_example = Reach-owner_of naturals bits 7 1 unique two_steps

AnyReach-UniqueMembers_example : UniqueMembers given_db.team_members
AnyReach-UniqueMembers_example = AnyReach-UniqueMembers naturals bits unique three_steps

sole_owner :
    (v w : ℕ)
    → owner_of 7 v two_members.team_members ≡ true
    → owner_of 7 w two_members.team_members ≡ true
    → v ≡ w
unfolding owner_of
sole_owner v w p q = ground arith

plain : Role.is_admin (public_user (db_user 1 "developer")).role ≡ false
unfolding public_user Role.is_admin Role.from_string
plain = refl

transfer_sole_owner_example : owner_of 7 1 given_db.team_members ≡ (1 == 2)
transfer_sole_owner_example =
    transfer_sole_owner naturals bits (logged_in 1 "developer") 7 2 0
      (public_user (db_user 1 "developer")) two_members given_db no_content 1 unique sole_owner
      plain refl give

owner_after : owner_of 7 3 two_owners.team_members ≡ (
    if 7 == 7 && 3 == 2
    then true
    else if 7 == 7 && 3 == (public_user (db_user 3 "admin")).id
    then false
    else owner_of 7 3 two_members.team_members)
owner_after =
    transfer-owner_of naturals bits (logged_in 3 "admin") 7 2 0 (public_user (db_user 3 "admin"))
      two_members two_owners no_content 7 3 refl admin_gives

add_team_member-Invited_example :
    (row_of 7 3 two_members.team_members ≡ none)
    × (r : DbTeamMember ℕ) × (row_of 7 3 invited_db.team_members ≡ some r)
    × Invited naturals newcomer r
add_team_member-Invited_example =
    add_team_member-Invited naturals bits (logged_in 1 "developer") 7 newcomer (some 3) (some 50)
      two_members invited_db no_content invite

other_user : 1 ≢ (public_user (db_user 3 "admin")).id
unfolding public_user
other_user = λ h. absurd (omega arith)

first_owner : owner_of 7 1 two_members.team_members ≡ true
unfolding owner_of
first_owner = refl

owner_kept :
    (owner_of 7 1 two_owners.team_members ≡ true) × (owner_of 7 2 two_owners.team_members ≡ true)
owner_kept =
    admin_transfer_keeps_owner naturals bits (logged_in 3 "admin") 7 2 1 0
      (public_user (db_user 3 "admin")) two_members two_owners no_content other_user first_owner
      refl admin_gives
