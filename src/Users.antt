-- ===== src/Users.antt =====
-- Users: the row of src/database/models/user_item.rs and what the API returns,
-- src/models/users.rs. A time is a number of seconds; `Decimal`, of the package rust_decimal, is a
-- type that the records take.
pub mod Role
pub mod Recipient
pub mod Wallet
pub mod Find
pub mod Edit
pub mod Edited
pub mod Editing
use labrinth.Base.{ℕ, String, Bool, Option, none, List}
use Recipient.{RecipientType}
use Wallet.{RecipientWallet}

pub data AuthProvider : Type 0 where
  github discord microsoft gitlab google steam : AuthProvider

-- The row of a user.
pub record DbUser (Decimal : Type 0) : Type 0 where
  pub id : ℕ
  pub github_id : Option ℕ
  pub discord_id : Option ℕ
  pub gitlab_id : Option ℕ
  pub google_id : Option String
  pub steam_id : Option ℕ
  pub microsoft_id : Option String
  pub password : Option String
  pub totp_secret : Option String
  pub username : String
  pub name : Option String
  pub email : Option String
  pub email_verified : Bool
  pub avatar_url : Option String
  pub bio : Option String
  pub created : ℕ
  pub role : String
  pub badges : ℕ
  pub balance : Decimal
  pub payout_wallet : Option RecipientWallet
  pub payout_wallet_type : Option RecipientType
  pub payout_address : Option String

pub record UserPayoutData (Decimal : Type 0) : Type 0 where
  pub balance : Decimal
  pub payout_wallet : Option RecipientWallet
  pub payout_wallet_type : Option RecipientType
  pub payout_address : Option String

pub record User (Decimal : Type 0) : Type 0 where
  pub id : ℕ
  pub username : String
  pub name : Option String
  pub avatar_url : Option String
  pub bio : Option String
  pub created : ℕ
  pub role : Role.Role
  pub badges : ℕ
  pub payout_data : Option (UserPayoutData Decimal)
  pub auth_providers : Option (List AuthProvider)
  pub email : Option String
  pub email_verified : Option Bool
  pub has_password : Option Bool
  pub has_totp : Option Bool
  pub github_id : Option ℕ

-- `impl From<DBUser> for User`: nothing that is private to the user.
unfoldable pub public_user : {Decimal : Type 0} → DbUser Decimal → User Decimal
public_user data' = record {
  id = data'.id;
  username = data'.username;
  name = data'.name;
  avatar_url = data'.avatar_url;
  bio = data'.bio;
  created = data'.created;
  role = Role.from_string data'.role;
  badges = data'.badges;
  payout_data = none;
  auth_providers = none;
  email = none;
  email_verified = none;
  has_password = none;
  has_totp = none;
  github_id = none;
}
