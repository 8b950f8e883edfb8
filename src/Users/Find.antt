-- ===== src/Users/Find.antt =====
-- `User::get` of src/database/models/user_item.rs: the user of an id or of a name.
use labrinth.Base.{ℕ, String, Bool, false, ◌||◌, Option, List, find, ◌==◌, str_eq, Result, ok, err}
use labrinth.Ids.{DecodingError, codes, parse_base62}
use labrinth.Users.{DbUser}

abbrev is_id : Result DecodingError ℕ → ℕ → Bool
is_id (ok n) id = n == id
is_id (err x) id = false

-- `WHERE id = ANY($1) OR LOWER(username) = ANY($2)`
unfoldable pub get_user :
    {Decimal : Type 0}
    → (String → String)
    → String
    → List (DbUser Decimal)
    → Option (DbUser Decimal)
get_user to_lowercase string users =
    find
      (λ u.
        is_id (parse_base62 (codes string)) u.id
        || str_eq (to_lowercase u.username) (to_lowercase string))
      users
