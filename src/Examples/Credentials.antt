-- ===== src/Examples/Credentials.antt =====
-- Passwords, second factors, addresses and accounts of other sites at concrete inputs.
use labrinth.Base.{
  ℕ, ◌+◌, ◌^◌, ◌<◌, ◌≤◌, ◌≡◌, refl, String, true, false, none, some, [], ◌∷◌, List, ok, err, length,
  arith, Option,
}
use labrinth.Flags.Bits.{bits}
use labrinth.Scopes
use labrinth.Ids.{codes}
use labrinth.Users.{AuthProvider, DbUser, User, github}
use labrinth.Api.{json, no_content, invalid_credentials, Response}
use labrinth.Auth.Validate.{private_user}
use labrinth.Teams.Routes.{Auth, current_user}
use labrinth.Auth.Flows.{
  Db, Env, Outside, FlowRow, BearerAuth, o_auth, initialize2fa, forgot_password, confirm_email, get,
}
use labrinth.Auth.Flows.Accounts.{get_id, update, get_backup_codes}
use labrinth.Auth.Flows.Providers.{get_user_id, update_user_id}
use labrinth.Auth.Flows.Linked.{get_user_id-update_user_id}
use labrinth.Auth.Flows.Login.{LoginTwoFactor}
use labrinth.Auth.Flows.Password.{ChangePassword}
use labrinth.Auth.Flows.TwoFactor.{finish_2fa_flow}
use labrinth.Auth.Flows.NewCodes.{finish_2fa_flow-codes}
use labrinth.Auth.Flows.Email.{verify_email}
use labrinth.Auth.Flows.Verified.{verify_email-eq_ok}
use labrinth.Auth.Flows.Creation.{TempUser, test_username, free_username}
use labrinth.Auth.Flows.Names.{is_taken, free_username_first}
use labrinth.Auth.Flows.OAuth.{Site, redirect, auth_callback}
use labrinth.Auth.Flows.Callback.{CameBack, auth_callback-CameBack}
use labrinth.Examples.Flows.{flow_env, flow_db, first_user, second_user}

abbrev pub with_flow : FlowRow → Outside
with_flow row = record { flows = row ∷ []; mails = [] }

abbrev pub nothing : Outside
nothing = record { flows = []; mails = [] }

-- User 2, who has no address, resets the password.
abbrev forgotten : Outside
forgotten = with_flow (record { id = "forgotten"; flow = forgot_password 2; expires = 1000 })

abbrev new_password : ChangePassword
new_password = record {
  flow = some "forgotten";
  old_password = none;
  new_password = some "long words";
}

abbrev nobody : BearerAuth ℕ
nobody = err invalid_credentials

abbrev changed_db : Db ℕ
changed_db = record flow_db {
  users = first_user ∷ record second_user { password = some "long words" } ∷ [];
}

-- User 2 sets up another second factor.
abbrev initialized : Outside
initialized = with_flow (record { id = "init"; flow = initialize2fa 2 "other"; expires = 1000 })

abbrev set_up : LoginTwoFactor
set_up = record { code = "123456"; flow = "init" }

abbrev second_auth : Auth ℕ
second_auth = ok (Scopes.all, private_user second_user)

abbrev six : List (List ℕ)
six =
    codes "10000000000"
    ∷ codes "10000000001"
    ∷ codes "10000000002"
    ∷ codes "10000000003"
    ∷ codes "10000000004"
    ∷ codes "10000000005"
    ∷ []

abbrev lowest : ℕ
lowest = 62 ^ 10

abbrev finished_db : Db ℕ
finished_db = record flow_db {
  users = first_user ∷ record second_user { totp_secret = some "other" } ∷ [];
  user_backup_codes =
      (2, lowest)
      ∷ (2, lowest + 1)
      ∷ (2, lowest + 2)
      ∷ (2, lowest + 3)
      ∷ (2, lowest + 4)
      ∷ (2, lowest + 5)
      ∷ [];
}

finish_it :
    finish_2fa_flow bits flow_env second_auth set_up flow_db initialized
    ≡ (ok (json six, finished_db), nothing)
unfolding finish_2fa_flow get labrinth.Ids.to_base62 labrinth.Auth.Flows.remove
    labrinth.Ids.multiples labrinth.Ids.random_base62_rng private_user
finish_it = refl

finish_2fa_flow-codes_example :
    (id : ℕ) × (secret : String) × (user : User ℕ) × (texts : List (List ℕ)) × (get "init" 300
        initialized.flows
      ≡ some (initialize2fa id secret))
    × (current_user second_auth ≡ ok user)
    × (user.id ≡ id)
    × (flow_env.generate_current secret ≡ some "123456")
    × (◌≡◌ {A = Response (List (List ℕ))} (json six) (json texts))
    × (length texts ≡ 6)
    × (get_backup_codes id finished_db.user_backup_codes ≡ texts)
    × (finished_db.users ≡ update (λ u. record u { totp_secret = some secret }) id flow_db.users)
finish_2fa_flow-codes_example =
    finish_2fa_flow-codes bits flow_env second_auth set_up flow_db finished_db initialized nothing
      (json six) finish_it

-- User 1 verifies the address.
abbrev sent : Outside
sent = with_flow (record { id = "sent"; flow = confirm_email 1 "first@mail"; expires = 1000 })

abbrev verified_db : Db ℕ
verified_db = record flow_db {
  users = record first_user { email_verified = true } ∷ second_user ∷ [];
}

verify_it : verify_email flow_env "sent" flow_db sent ≡ (ok (no_content, verified_db), nothing)
unfolding verify_email get get_id labrinth.Ids.to_base62 labrinth.Auth.Flows.remove
verify_it = refl

verify_email-eq_ok_example :
    (id : ℕ) × (email : String) × (user : DbUser ℕ) × (get "sent" 300 sent.flows
      ≡ some (confirm_email id email))
    × (get_id flow_env.to_lowercase id flow_db.users ≡ some user)
    × (user.email ≡ some email)
    × (verified_db ≡ record flow_db {
      users = update (λ u. record u { email_verified = true }) user.id flow_db.users;
    })
    × ((now : ℕ) → get "sent" now [] ≡ none)
verify_email-eq_ok_example =
    verify_email-eq_ok flow_env "sent" flow_db verified_db sent nothing no_content verify_it

-- User 1 links an account of GitHub.
abbrev pub github_site : Site
github_site = record {
  host = λ url. some "modrinth.com";
  allowed = [];
  ends_with = λ s t. false;
  var = λ name. none;
  encode = λ s. s;
  user = λ p. ok (record {
    id = "5";
    username = "first";
    email = none;
    avatar_url = none;
    bio = none;
    name = none;
  });
  takes_text = λ state. false;
  to_string = λ n. "1";
  upload = λ id url. ok none;
  rounds = 2;
}

abbrev started : Outside
started =
    with_flow (record { id = "state"; flow = o_auth (some 1) (some "url") github; expires = 1000 })

abbrev told : Outside
told = record {
  flows = [];
  mails =
      record { to = "first@mail"; email_title = "Authentication method added"; button = none } ∷ [];
}

abbrev linked_db : Db ℕ
linked_db = record flow_db { users = record first_user { github_id = some 5 } ∷ second_user ∷ [] }

link_it :
    auth_callback flow_env github_site "state" flow_db started
    ≡ (ok (ok (redirect "url"), linked_db), told)
unfolding auth_callback get get_id labrinth.Ids.to_base62 labrinth.Auth.Flows.remove
    labrinth.Auth.Flows.Mails.send_email
link_it = refl

auth_callback-CameBack_example :
    (to : Option ℕ) × (url : Option String) × (p : AuthProvider) × (t : TempUser) × (get "state" 300
        started.flows
      ≡ some (o_auth to url p))
    × (github_site.user p ≡ ok t)
    × CameBack flow_env github_site to p t flow_db linked_db told
auth_callback-CameBack_example =
    auth_callback-CameBack flow_env github_site "state" flow_db linked_db started told
      (ok (redirect "url")) link_it

-- The name of user 1 is taken, and the next one is free.
next_is_free :
    is_taken flow_env github_site.to_string github_site.upload flow_db.users "first" 1 ≡ false
unfolding labrinth.Users.Find.get_user labrinth.Ids.parse_base62
next_is_free = refl

free_username_first_example :
    (j : ℕ) × (j ≤ 1)
    × (free_username flow_env github_site.to_string github_site.upload 2 "first" 0 flow_db.users
        ≡ some (test_username flow_env github_site.to_string github_site.upload "first" (0 + j)))
    × (is_taken flow_env github_site.to_string github_site.upload flow_db.users "first" (0 + j)
        ≡ false)
    × ((i : ℕ)
        → i < j
        → is_taken flow_env github_site.to_string github_site.upload flow_db.users "first" (0 + i)
          ≡ true)
free_username_first_example =
    free_username_first flow_env github_site.to_string github_site.upload 2 "first" 0 1
      flow_db.users (omega arith) next_is_free

nobody_has : get_user_id flow_env.parse_i64 github "5" flow_db.users ≡ ok none
unfolding get_user_id
nobody_has = refl

get_user_id-update_user_id_example :
    get_user_id flow_env.parse_i64 github "5"
      (update_user_id flow_env.parse_i64 github 1 (some "5") flow_db.users)
    ≡ ok (some 1)
get_user_id-update_user_id_example =
    get_user_id-update_user_id flow_env.parse_i64 github "5" 1 flow_db.users nobody_has refl
