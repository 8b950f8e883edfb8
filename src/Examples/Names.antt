-- ===== src/Examples/Names.antt =====
-- Users whose name is the text of the id of another user, or of their own.
use labrinth.Base.{ℕ, ◌≡◌, refl, none, some, [], ◌∷◌, ok, str_eq, if◌then◌else◌}
use labrinth.Flags.Bits.{bits}
use labrinth.Users.{DbUser, User, github, public_user}
use labrinth.Users.Role
use labrinth.Users.Edit.{Env, user_edit}
use labrinth.Api.{no_content}
use labrinth.Auth.Sessions.{new_session, issue_session}
use labrinth.Auth.Flows.{o_auth, Outside, Db, get}
use labrinth.Auth.Flows.Accounts.{get_id}
use labrinth.Auth.Flows.OAuth.{redirect, auth_callback}
use labrinth.Examples.Sessions.{nowhere}
use labrinth.Examples.Flows.{flow_env, flow_db, first_user, second_user}
use labrinth.Examples.Credentials.{github_site, with_flow, nothing}
use labrinth.Examples.Users.{edit_env, renamed, named}

abbrev entering : Outside
entering =
    with_flow (record { id = "state"; flow = o_auth none (some "url") github; expires = 1000 })

-- User 2 has the account and a second factor; the row of another user, whose name is "2", is first.
abbrev confused_db : Db ℕ
confused_db = record flow_db {
  users = record first_user { username = "2" } ∷ record second_user { github_id = some 5 } ∷ [];
}

-- A session for user 2 is opened, and no code is asked for.
no_code_asked : auth_callback flow_env github_site "state" confused_db entering ≡ (
  ok (
    ok (redirect "url?code=mra_new"),
    record confused_db { sessions = new_session 300 4 "mra_new" 2 nowhere ∷ [] },
  ),
  nothing,
)
unfolding auth_callback get get_id labrinth.Ids.to_base62 labrinth.Auth.Flows.remove issue_session
no_code_asked = refl

abbrev lowering : Env
lowering = record edit_env { to_lowercase = λ text. if str_eq text "A" then "a" else text }

abbrev user_ten : DbUser ℕ
user_ten = named 10 "developer" "ten"

abbrev ten : User ℕ
ten = public_user user_ten

-- "A" is the text of the id 10: user 10 takes this name beside another user who is named "a".
name_in_other_case :
    user_edit bits lowering
      (ok (0, ten))
      "ten"
      (renamed "A")
      (user_ten ∷ named 11 "developer" "a" ∷ [])
    ≡ ok (no_content, named 10 "developer" "A" ∷ named 11 "developer" "a" ∷ [])
unfolding user_edit public_user labrinth.Ids.parse_base62 Role.is_mod Role.from_string
name_in_other_case = refl
