-- ===== src/Auth/Flows/Linking.antt =====
-- `delete_auth_provider` of src/auth/flows.rs.
use labrinth.Base.{Bool, false, ◌||◌, Option, none, some, List, ltb, length}
use labrinth.Users.{AuthProvider}
use labrinth.Api.{ApiError, invalid_input, mail, Response, no_content}
use labrinth.Teams.Routes.{Auth, current_user}
use labrinth.Auth.Flows.{Db, Env, Action, ◌>>=◌, ◌>>◌, lift, pure, check}
use labrinth.Auth.Flows.Mails.{notify, send_email}
use labrinth.Auth.Flows.Providers.{update_user_id}
use labrinth.Auth.Flows.TwoFactor.{or_false}

abbrev pub several : Option (List AuthProvider) → Bool
several none = false
several (some providers) = ltb 1 (length providers)

module _ {Decimal : Type 0} (env : Env Decimal) where
  unfoldable pub delete_auth_provider :
      Auth Decimal → AuthProvider → Db Decimal → Action ApiError (Response (Unit {0}) × Db Decimal)
  unfolding update_user_id send_email
  delete_auth_provider auth provider db = do
    user ← lift (current_user auth)
    check (several user.auth_providers || or_false user.has_password)
        (invalid_input "You must have another authentication method added to this account!")
    notify mail env user.email "Authentication method removed"
    pure (
      no_content,
      record db { users = update_user_id env.parse_i64 provider user.id none db.users },
    )
