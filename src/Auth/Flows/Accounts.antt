-- ===== src/Auth/Flows/Accounts.antt =====
-- The rows of users and of backup codes, as src/database/models/user_item.rs reads and writes them.
use labrinth.Base.{
  ℕ, String, Bool, true, false, not, ◌&&◌, ◌||◌, ◌+◌, Option, none, some, List, [], ◌∷◌, ◌++◌, map,
  any, find, filterb, leb, ◌==◌, str_eq, if◌then◌else◌,
}
use labrinth.Ids.{codes, to_base62}
use labrinth.Ids.Generate.{text_of}
use labrinth.Users.{DbUser}

abbrev pub same_codes : List ℕ → List ℕ → Bool
same_codes [] [] = true
same_codes [] (d ∷ ds) = false
same_codes (c ∷ cs) [] = false
same_codes (c ∷ cs) (d ∷ ds) = c == d && same_codes cs ds

-- `to_lowercase` of a digit of base62
abbrev lower_digit : ℕ → ℕ
lower_digit c = if leb b'A' c && leb c b'Z' then c + 32 else c

abbrev pub same_text : Option String → String → Bool
same_text none text = false
same_text (some s) text = str_eq s text

abbrev pub id_of : {Decimal : Type 0} → Option (DbUser Decimal) → Option ℕ
id_of none = none
id_of (some u) = some u.id

module _ {Decimal : Type 0} where
  -- The name of a user is the text of an id, whatever the case.
  unfoldable pub reads_as : (String → String) → ℕ → DbUser Decimal → Bool
  reads_as to_lowercase id u =
      same_codes (codes (to_lowercase u.username)) (map lower_digit (text_of (to_base62 id)))

  -- `User::get_id` looks for the text of the id, and so also among the names.
  unfoldable pub get_id : (String → String) → ℕ → List (DbUser Decimal) → Option (DbUser Decimal)
  unfolding reads_as
  get_id to_lowercase id users = find (λ u. u.id == id || reads_as to_lowercase id u) users

  -- `User::get_email`
  unfoldable pub get_email : String → List (DbUser Decimal) → Option ℕ
  get_email email users = id_of (find (λ u. same_text u.email email) users)

  -- `UPDATE users SET … WHERE id = …`
  abbrev pub update :
      (DbUser Decimal → DbUser Decimal) → ℕ → List (DbUser Decimal) → List (DbUser Decimal)
  update change id users = map (λ u. if u.id == id then change u else u) users

  abbrev pub has_email : Option String → DbUser Decimal → Bool
  has_email none u = false
  has_email (some email) u = same_text u.email email

  -- `User::insert` leaves these columns to their defaults.
  abbrev pub with_defaults : Decimal → DbUser Decimal → DbUser Decimal
  with_defaults zero u = record u {
    totp_secret = none;
    role = "developer";
    badges = 0;
    balance = zero;
    payout_wallet = none;
    payout_wallet_type = none;
    payout_address = none;
  }

  -- `User::insert`; the id, the name and the address are unique, `none` where one is not.
  unfoldable pub insert :
      Decimal → DbUser Decimal → List (DbUser Decimal) → Option (List (DbUser Decimal))
  insert zero u users =
      if any (λ o. o.id == u.id || str_eq o.username u.username || has_email u.email o) users
      then none
      else some (users ++ with_defaults zero u ∷ [])

-- `User::get_backup_codes`
unfoldable pub get_backup_codes : ℕ → List (ℕ × ℕ) → List (List ℕ)
get_backup_codes user rows =
    map (λ row. text_of (to_base62 row.1)) (filterb (λ row. row.0 == user) rows)

-- `DELETE FROM user_backup_codes WHERE user_id = $1 AND code = $2`
abbrev pub delete_code : ℕ → ℕ → List (ℕ × ℕ) → List (ℕ × ℕ)
delete_code user code rows = filterb (λ row. not (row.0 == user && row.1 == code)) rows

-- `DELETE FROM user_backup_codes WHERE user_id = $1`
abbrev pub delete_codes : ℕ → List (ℕ × ℕ) → List (ℕ × ℕ)
delete_codes user rows = filterb (λ row. not (row.0 == user)) rows
