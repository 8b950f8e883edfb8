-- ===== src/Users/Recipient.antt =====
-- `RecipientType` of src/models/users.rs.
use labrinth.Base.{String, str_eq, if◌then◌else◌}

pub data RecipientType : Type 0 where
  email phone user_handle : RecipientType

unfoldable pub from_string : String → RecipientType
from_string string =
    if str_eq string "user_handle"
    then user_handle
    else if str_eq string "phone"
    then phone
    else email

unfoldable pub as_str : RecipientType → String
as_str email = "email"
as_str phone = "phone"
as_str user_handle = "user_handle"
