-- ===== src/Payouts.antt =====
-- Payouts: `PayoutsQueue` of src/queue/payouts.rs, which pays through PayPal, and
-- `user_payouts_request` of src/routes/v2/users.rs, which takes the amount from a user's balance.
-- The queue is behind a lock that the route holds, so two requests do not interleave.
pub mod Sent
pub mod Requests
use Prim.Native.String.{◌++◌ as append}
use labrinth.Base.{
  ℕ, ◌+◌, String, ◌≡◌, Bool, true, false, not, ◌&&◌, ◌||◌, Option, none, some, List, [], ◌∷◌, ◌++◌,
  map, find, ltb, ◌==◌, str_eq, if◌then◌else◌, Result, ok, err, ok_or, guard, ◌>>=◌, ◌>>◌,
}
use labrinth.Ids.{DecodingError, codes, parse_base62}
use labrinth.Users.{DbUser, User, UserPayoutData}
use labrinth.Users.Find.{get_user}
use labrinth.Users.Role
use labrinth.Users.Recipient
use labrinth.Users.Recipient.{RecipientType}
use labrinth.Users.Wallet
use labrinth.Users.Wallet.{RecipientWallet}
use labrinth.Api.{
  ApiError, env, payments, invalid_input, custom_authentication, Response, no_content, not_found,
}
use labrinth.Teams.Routes.{Auth, current_user}

-- What is used of rust_decimal, with laws of its order and subtraction.
pub record Money (Decimal : Type 0) : Type 0 where
  pub lt : Decimal → Decimal → Bool
  pub zero_dollars : Decimal
  -- 1 / 4, 20, and the product with 2 / 100
  pub quarter : Decimal
  pub twenty : Decimal
  pub two_percent : Decimal → Decimal
  pub sub : Decimal → Decimal → Decimal
  -- `round_dp(2)`
  pub round_cents : Decimal → Decimal
  pub quarter_bound : lt twenty quarter ≡ false
  pub lt_asym : (a b : Decimal) → lt a b ≡ true → lt b a ≡ false
  -- if a < b and not c < 0, then 0 < b - (a - c)
  pub lt_sub :
      (a b c : Decimal)
      → lt a b ≡ true
      → lt c zero_dollars ≡ false
      → lt zero_dollars (sub b (sub a c)) ≡ true

pub record PaypalCredential : Type 0 where
  pub access_token : String
  pub token_type : String
  pub expires_in : ℕ

pub record PayoutsQueue : Type 0 where
  pub credential : PaypalCredential
  pub credential_expires : ℕ

pub record PayoutItem (Decimal : Type 0) : Type 0 where
  pub currency : String
  pub value : Decimal
  pub receiver : String
  pub note : String
  pub recipient_type : String
  pub recipient_wallet : String
  pub sender_item_id : String

-- How PayPal answers a payment: not at all; with an error, whose message is read if it can be; or
-- with success, where the fee that was really taken is read if it can be.
pub data Answer (Decimal : Type 0) : Type 0 where
  unreachable : Answer Decimal
  refused : Option String → Answer Decimal
  accepted : Option Decimal → Answer Decimal

-- What PayPal and the environment answer.
pub record Env (Decimal : Type 0) : Type 0 where
  -- the answer of oauth2/token
  pub new_credential : Option PaypalCredential
  -- `dotenvy::var("PAYPAL_API_URL")`
  pub api_url : Option String
  pub pay : PaypalCredential → PayoutItem Decimal → Answer Decimal
  pub to_lowercase : String → String
  pub to_uppercase : String → String
  -- the text of the id of a payment
  pub item_id : ℕ → String
  pub now : ℕ

module _ {Decimal : Type 0} (money : Money Decimal) (e : Env Decimal) where
  -- `std::cmp::max` and `std::cmp::min`
  abbrev max : Decimal → Decimal → Decimal
  max a b = if money.lt b a then a else b

  abbrev min : Decimal → Decimal → Decimal
  min a b = if money.lt b a then b else a

  -- The fee that is kept back.
  unfoldable pub fee : String → Decimal → Decimal
  fee wallet amount =
      if str_eq wallet "Venmo"
      then money.quarter
      else min (max money.quarter (money.two_percent amount)) money.twenty

  unfoldable pub refresh_token : PayoutsQueue → Result ApiError PayoutsQueue
  refresh_token q = do
    credential ← ok_or e.new_credential (payments "Error while authenticating with PayPal")
    ok (record { credential = credential; credential_expires = e.now + credential.expires_in })

  unfoldable pub without_fee : PayoutItem Decimal → PayoutItem Decimal
  unfolding fee
  without_fee item = record item {
    value = money.round_cents (money.sub item.value (fee item.recipient_wallet item.value));
  }

  -- What is left of the fee, where less was taken.
  unfoldable pub leftover : String → Decimal → Option Decimal → Decimal
  leftover wallet kept none = money.zero_dollars
  leftover wallet kept (some taken) =
      if not (str_eq wallet "Venmo") && money.lt money.zero_dollars (money.sub kept taken)
      then money.sub kept taken
      else money.zero_dollars

  abbrev pub paid : String → Decimal → Answer Decimal → Result ApiError Decimal
  paid wallet kept unreachable = err (payments "Error while sending payout to PayPal")
  paid wallet kept (refused none) = err (payments "Error while registering payment in PayPal!")
  paid wallet kept (refused (some message)) =
      err (payments (append "Error while registering payment in PayPal: " message))
  paid wallet kept (accepted taken) = ok (leftover wallet kept taken)

  -- The queue after the payment, the payment that PayPal got, and what is left of the fee.
  unfoldable pub send_payout :
      PayoutItem Decimal
      → PayoutsQueue
      → Result ApiError (PayoutsQueue × PayoutItem Decimal × Decimal)
  unfolding refresh_token without_fee leftover
  send_payout item q = do
    q ← if ltb q.credential_expires e.now then refresh_token q else ok q
    guard (money.lt money.zero_dollars (without_fee item).value)
        (invalid_input "You do not have enough funds to make this payout!")
    url ← ok_or e.api_url env
    left ←
        paid item.recipient_wallet (fee item.recipient_wallet item.value)
          (e.pay q.credential (without_fee item))
    ok (q, without_fee item, left)

-- The tables `users` and `historical_payouts`, the queue, and the payments that PayPal got.
pub record Db (Decimal : Type 0) : Type 0 where
  pub users : List (DbUser Decimal)
  pub historical_payouts : List (ℕ × Decimal)
  pub queue : PayoutsQueue
  pub payments : List (PayoutItem Decimal)

module _ {Decimal : Type 0} (money : Money Decimal) (e : Env Decimal) where
  -- `UPDATE users SET balance = balance - $1 WHERE id = $2`
  abbrev pub debit : ℕ → Decimal → List (DbUser Decimal) → List (DbUser Decimal)
  debit id amount users =
      map (λ u. if u.id == id then record u { balance = money.sub u.balance amount } else u) users

  abbrev pub payout_item :
      ℕ → Decimal → String → RecipientType → RecipientWallet → PayoutItem Decimal
  payout_item id amount address wallet_type wallet = record {
    currency = "USD";
    value = amount;
    receiver = address;
    note = "Payment from Modrinth creator monetization program";
    recipient_type = e.to_uppercase (Recipient.as_str wallet_type);
    recipient_wallet = Wallet.as_str_api wallet;
    sender_item_id = e.item_id id;
  }

  -- The transaction, for a user who is enrolled.
  unfoldable pub request_enrolled :
      ℕ
      → Decimal
      → Decimal
      → PayoutItem Decimal
      → Db Decimal
      → Result ApiError (Response (Unit {0}) × Db Decimal)
  unfolding send_payout
  request_enrolled id amount balance item db = do
    guard (money.lt amount balance)
        (invalid_input "You do not have enough funds to make this payout!")
    sent ← send_payout money e item db.queue
    ok (
      no_content,
      record {
        users = debit id (money.sub amount sent.2) db.users;
        historical_payouts = db.historical_payouts ++ (id, amount) ∷ [];
        queue = sent.0;
        payments = db.payments ++ sent.1 ∷ [];
      },
    )

  abbrev not_enrolled : ApiError
  not_enrolled = invalid_input "You are not enrolled in the payouts program yet!"

  abbrev pub request_with :
      ℕ
      → Decimal
      → Option (UserPayoutData Decimal)
      → Db Decimal
      → Result ApiError (Response (Unit {0}) × Db Decimal)
  request_with id amount payout_data db = do
    d ← ok_or payout_data not_enrolled
    address ← ok_or d.payout_address not_enrolled
    wallet_type ← ok_or d.payout_wallet_type not_enrolled
    wallet ← ok_or d.payout_wallet not_enrolled
    request_enrolled id amount d.balance (payout_item id amount address wallet_type wallet) db

  abbrev pub request_found :
      User Decimal
      → Decimal
      → Option (DbUser Decimal)
      → Db Decimal
      → Result ApiError (Response (Unit {0}) × Db Decimal)
  request_found user amount none db = ok (not_found, db)
  request_found user amount (some found) db = do
    guard (Role.is_admin user.role || user.id == found.id)
        (custom_authentication "You do not have permission to request payouts of this user!")
    request_with found.id amount user.payout_data db

  unfoldable pub user_payouts_request :
      Auth Decimal
      → String
      → Decimal
      → Db Decimal
      → Result ApiError (Response (Unit {0}) × Db Decimal)
  unfolding get_user request_enrolled
  user_payouts_request auth string amount db = do
    user ← current_user auth
    request_found user amount (get_user e.to_lowercase string db.users) db
