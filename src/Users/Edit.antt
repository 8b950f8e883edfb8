-- ===== src/Users/Edit.antt =====
-- `user_edit` of src/routes/v2/users.rs.
use labrinth.Base.{
  ℕ, String, Bool, true, false, not, ◌&&◌, ◌||◌, Option, none, some, List, map, any, ◌==◌, str_eq,
  if◌then◌else◌, Result, ok, err, guard, ◌>>=◌, ◌>>◌,
}
use labrinth.Flags.{Bitflags}
use labrinth.Scopes
use labrinth.Users.{DbUser, User}
use labrinth.Users.Find.{get_user}
use labrinth.Users.Role
use labrinth.Users.Recipient
use labrinth.Users.Recipient.{RecipientType}
use labrinth.Users.Wallet
use labrinth.Users.Wallet.{RecipientWallet}
use labrinth.Api.{
  AuthenticationError, ApiError, authentication, invalid_credentials, custom_authentication,
  invalid_input, validation, sqlx_database, Response, no_content, not_found,
}

pub record EditPayoutData : Type 0 where
  pub payout_wallet : RecipientWallet
  pub payout_wallet_type : RecipientType
  pub payout_address : String

pub record EditUser : Type 0 where
  pub username : Option String
  pub name : Option (Option String)
  pub bio : Option (Option String)
  pub role : Option Role.Role
  pub badges : Option ℕ
  pub payout_data : Option (Option EditPayoutData)

-- What is used of other packages.
pub record Env : Type 0 where
  pub validate : EditUser → Result String (Unit {0})
  pub to_lowercase : String → String
  pub validate_email : String → Bool
  pub validate_phone : String → Bool

-- Who edits, with the scopes of the token, and the table.
pub record Editor (Decimal : Type 0) : Type 0 where
  pub flags : Bitflags
  pub env : Env
  pub scopes : ℕ
  pub user : User Decimal
  pub users : List (DbUser Decimal)

module _ {Decimal : Type 0} (c : Editor Decimal) where
  -- `existing_user_id_option.map(|id| id == user.id).unwrap_or(true)`
  abbrev pub is_free : Option (DbUser Decimal) → Bool
  is_free none = true
  is_free (some existing) = existing.id == c.user.id

  -- The column `username` is unique, as it is written.
  unfoldable pub edit_username : Option String → DbUser Decimal → Result ApiError (DbUser Decimal)
  unfolding get_user
  edit_username none u = ok u
  edit_username (some username) u = do
    guard (is_free (get_user c.env.to_lowercase username c.users))
        (invalid_input "Username is taken!")
    guard (not (any (λ o. not (o.id == u.id) && str_eq o.username username) c.users)) sqlx_database
    ok (record u { username = username })

  abbrev pub edit_name : Option (Option String) → DbUser Decimal → DbUser Decimal
  edit_name none u = u
  edit_name (some name) u = record u { name = name }

  abbrev pub edit_bio : Option (Option String) → DbUser Decimal → DbUser Decimal
  edit_bio none u = u
  edit_bio (some bio) u = record u { bio = bio }

  unfoldable pub edit_role : Option Role.Role → DbUser Decimal → Result ApiError (DbUser Decimal)
  edit_role none u = ok u
  edit_role (some role) u = do
    guard (Role.is_admin c.user.role)
        (custom_authentication "You do not have the permissions to edit the role of this user!")
    ok (record u { role = Role.as_str role })

  unfoldable pub edit_badges : Option ℕ → DbUser Decimal → Result ApiError (DbUser Decimal)
  edit_badges none u = ok u
  edit_badges (some badges) u = do
    guard (Role.is_admin c.user.role)
        (custom_authentication "You do not have the permissions to edit the badges of this user!")
    ok (record u { badges = badges })

  abbrev pub paypal_handle : RecipientType → RecipientWallet → Bool
  paypal_handle Recipient.user_handle Wallet.paypal = true
  paypal_handle Recipient.user_handle Wallet.venmo = false
  paypal_handle Recipient.email wallet = false
  paypal_handle Recipient.phone wallet = false

  abbrev pub valid_address : RecipientType → String → Bool
  valid_address Recipient.email address = c.env.validate_email address
  valid_address Recipient.phone address = c.env.validate_phone address
  valid_address Recipient.user_handle address = true

  abbrev no_email : Option String → Bool
  no_email none = true
  no_email (some email) = false

  unfoldable pub edit_payout_data :
      Option (Option EditPayoutData) → DbUser Decimal → Result ApiError (DbUser Decimal)
  edit_payout_data none u = ok u
  edit_payout_data (some none) u =
      ok (record u { payout_wallet = none; payout_wallet_type = none; payout_address = none })
  edit_payout_data (some (some p)) u = do
    guard (not (paypal_handle p.payout_wallet_type p.payout_wallet))
        (invalid_input "You cannot use a paypal wallet with a user handle!")
    guard (c.flags.contains c.scopes Scopes.payouts_write) (authentication invalid_credentials)
    guard (valid_address p.payout_wallet_type p.payout_address)
        (invalid_input "Invalid wallet specified!")
    guard (not (no_email u.email)) (
        invalid_input
          "You must have an email set on your Modrinth account to enroll in the monetization program!")
    ok (record u {
      payout_wallet = some p.payout_wallet;
      payout_wallet_type = some p.payout_wallet_type;
      payout_address = some p.payout_address;
    })

  unfoldable pub edit_row : EditUser → DbUser Decimal → Result ApiError (DbUser Decimal)
  unfolding edit_username edit_role edit_badges edit_payout_data
  edit_row p u = do
    u ← edit_username p.username u
    u ← edit_role p.role (edit_bio p.bio (edit_name p.name u))
    u ← edit_badges p.badges u
    edit_payout_data p.payout_data u

abbrev pub replace :
    {Decimal : Type 0} → DbUser Decimal → List (DbUser Decimal) → List (DbUser Decimal)
replace row users = map (λ u. if u.id == row.id then row else u) users

abbrev pub edit_found :
    {Decimal : Type 0}
    → Editor Decimal
    → EditUser
    → Option (DbUser Decimal)
    → Result ApiError (Response (Unit {0}) × List (DbUser Decimal))
edit_found c p none = ok (not_found, c.users)
edit_found c p (some target) = do
  guard (c.user.id == target.id || Role.is_mod c.user.role)
      (custom_authentication "You do not have permission to edit this user!")
  row ← edit_row c p target
  ok (no_content, replace row c.users)

abbrev pub validated : Result String (Unit {0}) → Result ApiError (Unit {0})
validated (ok a) = ok a
validated (err message) = err (validation message)

module _ {Decimal : Type 0} (flags : Bitflags) (env : Env) where
  abbrev pub with_editor :
      Result AuthenticationError (ℕ × User Decimal)
      → List (DbUser Decimal)
      → Result ApiError (Editor Decimal)
  with_editor (ok (scopes, user)) users =
      ok (record { flags = flags; env = env; scopes = scopes; user = user; users = users })
  with_editor (err e) users = err (authentication e)

  unfoldable pub user_edit :
      Result AuthenticationError (ℕ × User Decimal)
      → String
      → EditUser
      → List (DbUser Decimal)
      → Result ApiError (Response (Unit {0}) × List (DbUser Decimal))
  unfolding edit_row get_user
  user_edit auth string p users = do
    c ← with_editor auth users
    validated (env.validate p)
    edit_found c p (get_user env.to_lowercase string users)
