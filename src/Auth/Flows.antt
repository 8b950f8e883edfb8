-- ===== src/Auth/Flows.antt =====
-- Login flows (src/auth/flows.rs): what the routes share. A flow is kept in Redis under a random
-- text until it expires (src/database/models/flow_item.rs). What is done in Redis and by mail stays
-- done if the route fails later; the tables of the database change only if it succeeds.
pub mod Accounts
pub mod ById
pub mod Providers
pub mod Mails
pub mod Codes
pub mod Login
pub mod TwoFactor
pub mod Password
pub mod Email
pub mod Creation
pub mod Linking
pub mod Redirect
pub mod OAuth
pub mod Runs
pub mod FirstFactor
pub mod SecondFactor
pub mod Backup
pub mod LoginKept
pub mod Changes
pub mod Entry
pub mod Callback
pub mod Hashes
pub mod Passwords
pub mod Steps
pub mod Factors
pub mod AlwaysLogin
pub mod Names
pub mod Linked
pub mod Verified
pub mod NewCodes
use labrinth.Base.{
  ℕ, String, Bool, true, false, not, ◌&&◌, ◌+◌, ◌*◌, Option, none, some, List, ◌∷◌, find, filterb,
  ltb, str_eq, if◌then◌else◌, Result, ok, err,
}
use labrinth.Flags.{Bitflags}
use labrinth.Scopes
use labrinth.Users.{AuthProvider, DbUser, User}
use labrinth.Api.{AuthenticationError, ApiError, authentication, invalid_credentials}
use labrinth.Auth.Tokens.{Session}
use labrinth.Auth.Sessions

pub data Flow : Type 0 where
  -- `user_id`, `url` and `provider`
  o_auth : Option ℕ → Option String → AuthProvider → Flow
  login2fa : ℕ → Flow
  -- `user_id` and `secret`
  initialize2fa : ℕ → String → Flow
  forgot_password : ℕ → Flow
  -- `user_id` and `confirm_email`
  confirm_email : ℕ → String → Flow
  minecraft_auth : Flow

pub record FlowRow : Type 0 where
  pub id : String
  pub flow : Flow
  pub expires : ℕ

-- A mail: its receiver, its title, and the parts of the link on its button. The other texts are
-- left out.
pub record Mail : Type 0 where
  pub to : String
  pub email_title : String
  pub button : Option (String × String × String)

-- What a failing route has changed all the same.
pub record Outside : Type 0 where
  pub flows : List FlowRow
  pub mails : List Mail

-- The tables.
pub record Db (Decimal : Type 0) : Type 0 where
  pub users : List (DbUser Decimal)
  -- `user_id` and `code`
  pub user_backup_codes : List (ℕ × ℕ)
  pub sessions : List Session

pub record NewAccount : Type 0 where
  pub username : String
  pub password : String
  pub email : String
  pub challenge : String
  pub sign_up_newsletter : Option Bool

-- What `get_user_record_from_bearer_token` returned.
abbrev pub BearerAuth : Type 0 → Type 0
BearerAuth Decimal = Result AuthenticationError (Option (ℕ × DbUser Decimal))

-- What is used of other packages, of other sites, of the environment and of the clock. Nothing is
-- assumed of it.
pub record Env (Decimal : Type 0) : Type 0 where
  -- for sessions, and `Utc::now()`
  pub sessions : Sessions.Env
  -- `check_turnstile_captcha`
  pub captcha : String → Result ApiError Bool
  pub validate_account : NewAccount → Result String (Unit {0})
  pub validate_email : String → Result String (Unit {0})
  -- Argon2: whether a text is a hash, whether it is the hash of a password, and hashing
  pub is_hash : String → Bool
  pub verify_password : String → String → Bool
  pub hash_password : String → Option String
  -- the score of a password beside other texts, and the warning
  pub zxcvbn : String → List String → Option (ℕ × Option String)
  -- the code that TOTP has for a secret now
  pub generate_current : String → Option String
  -- a new secret for TOTP
  pub random_secret : String
  -- 32 letters and digits
  pub random_flow : String
  -- the random generator of each backup code
  pub gen_range : ℕ → ℕ → ℕ → ℕ
  -- `generate_user_id`
  pub new_user_id : List (DbUser Decimal) → Option ℕ
  -- `send_email_raw`
  pub send_email_raw : Mail → Bool
  pub site_url : Option String
  pub site_verify_email_path : Option String
  pub site_reset_password_path : Option String
  -- `sign_up_beehiiv`
  pub sign_up_beehiiv : String → Result AuthenticationError (Unit {0})
  -- `str::parse::<i64>`; a negative number stands for its 64 bits
  pub parse_i64 : String → Option ℕ
  pub to_lowercase : String → String
  pub zero : Decimal

-- A call that may fail and that changes what is outside of the database.
abbrev pub Action : Type 0 → Type 0 → Type 0
Action E A = Outside → Result E A × Outside

abbrev pub resume :
    {E A B : Type 0} → Result E A × Outside → (A → Action E B) → Result E B × Outside
resume (ok a, o) f = f a o
resume (err e, o) f = (err e, o)

infixl 5 ◌>>=◌ ◌>>◌
abbrev pub ◌>>=◌ : {E A B : Type 0} → Action E A → (A → Action E B) → Action E B
m >>= f = λ o. resume (m o) f

abbrev pub ◌>>◌ : {E B : Type 0} → Action E (Unit {0}) → Action E B → Action E B
m >> k = m >>= λ _. k

-- A result that changes nothing outside.
abbrev pub lift : {E A : Type 0} → Result E A → Action E A
lift r o = (r, o)

abbrev pub pure : {E A : Type 0} → A → Action E A
pure a = lift (ok a)

abbrev authenticated : {A : Type 0} → Result AuthenticationError A → Result ApiError A
authenticated (ok a) = ok a
authenticated (err e) = err (authentication e)

-- The conversion of errors that `?` makes.
abbrev pub as_api : {A : Type 0} → Action AuthenticationError A → Action ApiError A
as_api m o = let (r, o') = m o in (authenticated r, o')

-- `Flow::insert`: the text is the answer.
unfoldable pub insert : {E : Type 0} → Flow → ℕ → String → ℕ → Action E String
insert flow expires text now o = (
  ok text,
  record o {
    flows =
        record { id = text; flow = flow; expires = now + expires }
        ∷ filterb (λ f. not (str_eq f.id text)) o.flows;
  },
)

abbrev flow_of : Option FlowRow → Option Flow
flow_of none = none
flow_of (some f) = some f.flow

abbrev pub is_live : String → ℕ → FlowRow → Bool
is_live text now f = str_eq f.id text && ltb now f.expires

-- `Flow::get`
unfoldable pub get : String → ℕ → List FlowRow → Option Flow
get text now flows = flow_of (find (is_live text now) flows)

abbrev pub get_flow : {E : Type 0} → String → ℕ → Action E (Option Flow)
get_flow text now o = (ok (get text now o.flows), o)

-- `Flow::remove`
unfoldable pub remove : {E : Type 0} → String → Action E (Unit {0})
remove text o = (ok tt, record o { flows = filterb (λ f. not (str_eq f.id text)) o.flows })

abbrev pub minutes : ℕ → ℕ
minutes n = n * 60

abbrev pub hours : ℕ → ℕ
hours n = n * 3600

-- `user.ok_or_else(|| AuthenticationError::InvalidCredentials)?`
abbrev pub some_or : {E A : Type 0} → Option A → E → Action E A
some_or none e o = (err e, o)
some_or (some a) e o = (ok a, o)

abbrev pub check : {E : Type 0} → Bool → E → Action E (Unit {0})
check true e o = (ok tt, o)
check false e o = (err e, o)

abbrev pub bad_credentials : ApiError
bad_credentials = authentication invalid_credentials

-- The user of a token with the scope USER_AUTH_WRITE
abbrev pub bearer :
    {Decimal : Type 0} → Bitflags → BearerAuth Decimal → Action ApiError (DbUser Decimal)
bearer flags auth = do
  found ← as_api (lift auth)
  user ← some_or found bad_credentials
  check (flags.contains user.0 Scopes.user_auth_write) bad_credentials
  pure user.1
