-- ===== src/Examples/Pats.antt =====
-- Tokens at concrete inputs: user 1 creates a token, and user 2 creates, edits and deletes one.
use labrinth.Base.{ℕ, ◌≡◌, ◌≢◌, refl, true, none, some, [], ◌∷◌, ok, err, arith}
use labrinth.Flags.Bits.{bits, bits_contain}
use labrinth.Scopes
use labrinth.Users.{public_user, User}
use labrinth.Api.{json, no_content, invalid_credentials}
use labrinth.Queue.Auth.{new, add_pat}
use labrinth.Auth.Tokens.{PersonalAccessToken}
use labrinth.Auth.Validate.{Backend, Request, get_user, get_user_record_from_bearer_token}
use labrinth.Auth.Pats.{
  Env, NewPersonalAccessToken, ShownToken, create_pat, delete_pat, get, token_text,
}
use labrinth.Auth.Pats.Steps.{Reach, here, next, create, delete}
use labrinth.Auth.Pats.Rows.{UniqueIds}
use labrinth.Auth.Pats.Kept.{Kept}
use labrinth.Auth.Pats.Owned.{Reach-Kept}
use labrinth.Auth.Pats.Created.{create_pat-authenticates}
use labrinth.Examples.Teams.{db_user}

abbrev own_token : PersonalAccessToken
own_token = record {
  id = 11;
  name = "laptop";
  access_token = "mrp_old";
  scopes = 4;
  user_id = 1;
  created = 50;
  expires = 900;
  last_used = none;
}

abbrev token_env : Env
token_env = record {
  validate = λ info. ok tt;
  new_id = λ rows. some 12;
  random_text = "new";
  now = 100;
}

abbrev wish : NewPersonalAccessToken
wish = record { scopes = 2; name = "phone"; expires = 500 }

abbrev user_two : User ℕ
user_two = public_user (db_user 2 "developer")

abbrev created_token : PersonalAccessToken
created_token = record {
  id = 12;
  name = "phone";
  access_token = "mrp_new";
  scopes = 2;
  user_id = 2;
  created = 100;
  expires = 500;
  last_used = none;
}

abbrev shown : ShownToken
shown = record {
  id = 12;
  name = "phone";
  access_token = some "mrp_new";
  scopes = 2;
  user_id = 2;
  created = 100;
  expires = 500;
  last_used = none;
}

create_it :
    create_pat bits token_env (ok (0, user_two)) wish (own_token ∷ [])
    ≡ ok (json shown, own_token ∷ created_token ∷ [])
unfolding create_pat public_user Scopes.restricted bits_contain labrinth.Flags.Bits.bits_union
create_it = refl

no_deletion :
    delete_pat bits token_env (ok (0, user_two)) "mrp_old" (own_token ∷ created_token ∷ [])
    ≡ ok (no_content, own_token ∷ created_token ∷ [])
unfolding delete_pat public_user labrinth.Ids.parse_base62
no_deletion = refl

own_token_unique : UniqueIds (own_token ∷ [])
own_token_unique id = ground arith

other_user : user_two.id ≢ 1
unfolding public_user
other_user = ground arith

by_others : Reach ℕ bits 1 (own_token ∷ []) (own_token ∷ created_token ∷ [])
by_others =
    next 0 user_two (next 0 user_two here other_user (create token_env wish shown create_it))
      other_user (delete token_env "mrp_old" no_deletion)

Reach-Kept_example : Kept 1 (own_token ∷ []) (own_token ∷ created_token ∷ [])
Reach-Kept_example = Reach-Kept bits 1 own_token_unique by_others

abbrev token_backend : Backend ℕ
token_backend = record {
  get_pat = λ token. ok (get bits token (own_token ∷ created_token ∷ []));
  get_session = λ token. ok none;
  users = db_user user_two.id "developer" ∷ [];
  user_query = ok tt;
  to_lowercase = λ s. s;
  github_account = λ token. err invalid_credentials;
  github_user_id = λ account. ok none;
  rate_limit_ignore = ok "key";
  metadata = err invalid_credentials;
  now = 300;
}

abbrev no_header : Request
no_header = record { authorization = none; ratelimit_key = none }

wish_known : bits.contains Scopes.all wish.scopes ≡ true
unfolding bits_contain
wish_known = refl

user_found : get_user token_backend user_two.id ≡ ok (some (db_user user_two.id "developer"))
unfolding labrinth.Auth.Flows.Accounts.get_id public_user
user_found = refl

create_pat-authenticates_example :
    (shown.access_token ≡ some (token_text "new"))
    × (shown.user_id ≡ user_two.id)
    × (get_user_record_from_bearer_token token_backend no_header shown.access_token new
        ≡ ok (some (wish.scopes, db_user user_two.id "developer"), add_pat shown.id new))
create_pat-authenticates_example =
    create_pat-authenticates bits token_env token_backend no_header new 0 user_two
      (db_user user_two.id "developer") wish shown (own_token ∷ []) (own_token ∷ created_token ∷ [])
      create_it wish_known refl user_found (omega arith)
