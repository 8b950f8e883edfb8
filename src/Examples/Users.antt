-- ===== src/Examples/Users.antt =====
-- A moderator gives user 1 a name that differs from the moderator's own name in case only.
use labrinth.Base.{
  ℕ, String, ◌≡◌, refl, true, ◌||◌, none, some, List, [], ◌∷◌, Result, ok, ◌==◌, str_eq,
  if◌then◌else◌,
}
use labrinth.Flags.Bits.{bits}
use labrinth.Users.{DbUser, User, public_user}
use labrinth.Users.Find.{get_user}
use labrinth.Users.Role
use labrinth.Users.Edit.{EditUser, Env, replace, user_edit}
use labrinth.Users.Edited.{Changed}
use labrinth.Users.Editing.{editor, user_edit-Changed}
use labrinth.Api.{AuthenticationError, no_content}
use labrinth.Examples.Teams.{db_user}

abbrev pub edit_env : Env
edit_env = record {
  validate = λ p. ok tt;
  to_lowercase = λ text. if str_eq text "Mod" then "mod" else text;
  validate_email = λ text. true;
  validate_phone = λ text. true;
}

abbrev pub renamed : String → EditUser
renamed name = record {
  username = some name;
  name = none;
  bio = none;
  role = none;
  badges = none;
  payout_data = none;
}

abbrev pub named : ℕ → String → String → DbUser ℕ
named id role name = record (db_user id role) { username = name }

abbrev two_users : List (DbUser ℕ)
two_users = named 1 "developer" "one" ∷ named 3 "moderator" "Mod" ∷ []

abbrev two_mods : List (DbUser ℕ)
two_mods = named 1 "developer" "mod" ∷ named 3 "moderator" "Mod" ∷ []

abbrev moderator : User ℕ
moderator = public_user (named 3 "moderator" "Mod")

rename_it :
    user_edit bits edit_env (ok (0, moderator)) "1" (renamed "mod") two_users
    ≡ ok (no_content, two_mods)
unfolding user_edit public_user labrinth.Ids.parse_base62 Role.is_mod Role.from_string
rename_it = refl

user_edit-Changed_example :
    (scopes : ℕ) × (user : User ℕ) × (target : DbUser ℕ) × (row : DbUser ℕ) × (◌≡◌
      {A = Result AuthenticationError (ℕ × User ℕ)}
      (ok (0, moderator))
      (ok (scopes, user)))
    × (get_user edit_env.to_lowercase "1" two_users ≡ some target)
    × ((user.id == target.id || Role.is_mod user.role) ≡ true)
    × Changed (editor bits edit_env scopes user two_users) target row
    × (two_mods ≡ replace row two_users)
user_edit-Changed_example =
    user_edit-Changed bits edit_env (ok (0, moderator)) "1" (renamed "mod") two_users two_mods
      rename_it
