-- ===== src/Examples/Payouts.antt =====
-- Payouts at concrete inputs, in cents: user 1 asks for 30 dollars of 50, of which 60 cents are kept
-- back as the fee and 35 are left over; an administrator asks in the name of user 1.
use labrinth.Base.{ℕ, ◌≡◌, refl, true, false, some, [], ◌∷◌, ok, arith, ltb, ◌-◌, ◌*◌, ◌/◌, All}
use labrinth.Users.{DbUser, UserPayoutData}
use labrinth.Users.Role
use labrinth.Users.Recipient
use labrinth.Users.Wallet
use labrinth.Api.{no_content}
use labrinth.Auth.Validate.{private_user}
use labrinth.Payouts.{Money, Env, Db, PayoutsQueue, accepted, user_payouts_request}
use labrinth.Payouts.Requests.{Paid, user_payouts_request-Paid, own_balance_bound}
use labrinth.Examples.Teams.{db_user}

ltb_asym : (a b : ℕ) → ltb a b ≡ true → ltb b a ≡ false
ltb_asym a b h = ground arith

ltb_sub : (a b c : ℕ) → ltb a b ≡ true → ltb c 0 ≡ false → ltb 0 (b - (a - c)) ≡ true
ltb_sub a b c h k = ground arith

abbrev cents : Money ℕ
cents = record {
  lt = ltb;
  zero_dollars = 0;
  quarter = 25;
  twenty = 2000;
  two_percent = λ a. a * 2 / 100;
  sub = ◌-◌;
  round_cents = λ a. a;
  quarter_bound = refl;
  lt_asym = ltb_asym;
  lt_sub = ltb_sub;
}

abbrev paypal : Env ℕ
paypal = record {
  new_credential = some (record { access_token = "t"; token_type = "Bearer"; expires_in = 100 });
  api_url = some "paypal";
  pay = λ credential item. accepted (some 25);
  to_lowercase = λ text. text;
  to_uppercase = λ text. text;
  item_id = λ id. "payment";
  now = 10;
}

abbrev enrolled_user : DbUser ℕ
enrolled_user = record (db_user 1 "developer") {
  balance = 5000;
  payout_wallet = some Wallet.paypal;
  payout_wallet_type = some Recipient.email;
  payout_address = some "one@example.org";
}

abbrev empty_queue : PayoutsQueue
empty_queue = record {
  credential = record { access_token = ""; token_type = ""; expires_in = 0 };
  credential_expires = 0;
}

abbrev before_payout : Db ℕ
before_payout = record {
  users = enrolled_user ∷ [];
  historical_payouts = [];
  queue = empty_queue;
  payments = [];
}

abbrev after_payout : Db ℕ
after_payout = record {
  users = record enrolled_user { balance = 2035 } ∷ [];
  historical_payouts = (1, 3000) ∷ [];
  queue = record {
    credential = record { access_token = "t"; token_type = "Bearer"; expires_in = 100 };
    credential_expires = 110;
  };
  payments =
      record {
        currency = "USD";
        value = 2940;
        receiver = "one@example.org";
        note = "Payment from Modrinth creator monetization program";
        recipient_type = "email";
        recipient_wallet = "PayPal";
        sender_item_id = "payment";
      }
      ∷ [];
}

ask :
    user_payouts_request cents paypal (ok (0, private_user enrolled_user)) "1" 3000 before_payout
    ≡ ok (no_content, after_payout)
unfolding user_payouts_request private_user labrinth.Ids.parse_base62 Role.is_admin Role.from_string
    Recipient.as_str Wallet.as_str_api
ask = refl

user_payouts_request-Paid_example :
    Paid cents paypal (private_user enrolled_user) "1" 3000 before_payout after_payout
user_payouts_request-Paid_example =
    user_payouts_request-Paid cents paypal 0 (private_user enrolled_user) "1" 3000 before_payout
      after_payout ask

abbrev enrolled_data : UserPayoutData ℕ
enrolled_data = record {
  balance = 5000;
  payout_wallet = some Wallet.paypal;
  payout_wallet_type = some Recipient.email;
  payout_address = some "one@example.org";
}

developer : Role.is_admin (private_user enrolled_user).role ≡ false
unfolding Role.is_admin Role.from_string private_user
developer = refl

has_data : (private_user enrolled_user).payout_data ≡ some enrolled_data
unfolding private_user
has_data = refl

own_balance_bound_example :
    All (λ u. u.id ≡ (private_user enrolled_user).id → ltb 0 u.balance ≡ true) after_payout.users
own_balance_bound_example =
    own_balance_bound cents paypal 0 (private_user enrolled_user) enrolled_data "1" 3000
      before_payout after_payout ask developer has_data (λ h. refl, tt)
