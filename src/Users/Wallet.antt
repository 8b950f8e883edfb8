-- ===== src/Users/Wallet.antt =====
-- `RecipientWallet` of src/models/users.rs.
use labrinth.Base.{String, str_eq, if◌then◌else◌}

pub data RecipientWallet : Type 0 where
  venmo paypal : RecipientWallet

unfoldable pub from_string : String → RecipientWallet
from_string string = if str_eq string "venmo" then venmo else paypal

unfoldable pub as_str : RecipientWallet → String
as_str paypal = "paypal"
as_str venmo = "venmo"

unfoldable pub as_str_api : RecipientWallet → String
as_str_api paypal = "PayPal"
as_str_api venmo = "Venmo"
