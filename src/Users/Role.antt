-- ===== src/Users/Role.antt =====
-- `Role` of src/models/users.rs.
use labrinth.Base.{Bool, true, false, String, str_eq, if◌then◌else◌}

pub data Role : Type 0 where
  developer moderator admin : Role

unfoldable pub from_string : String → Role
from_string string =
    if str_eq string "admin"
    then admin
    else if str_eq string "moderator"
    then moderator
    else developer

unfoldable pub as_str : Role → String
as_str developer = "developer"
as_str moderator = "moderator"
as_str admin = "admin"

unfoldable pub is_mod : Role → Bool
is_mod moderator = true
is_mod admin = true
is_mod developer = false

unfoldable pub is_admin : Role → Bool
is_admin admin = true
is_admin developer = false
is_admin moderator = false
