-- ===== src/Auth/Flows/ById.antt =====
-- Which user `User::get_id` of src/database/models/user_item.rs finds for an id.
use mathlib.Core.List.{Memᴰ}
use labrinth.Base.{ℕ, String, ◌≡◌, ◌⊎◌, inl, inr, true, ◌||◌, some, List, ◌==◌, arith, Bool-cases}
use labrinth.Users.{DbUser}
use labrinth.Teams.Rows.{find-Memᴰ}
use labrinth.Auth.Flows.Accounts.{reads_as, get_id}

module _ {Decimal : Type 0} (to_lowercase : String → String) where
  -- A row of the table that has the id, or a name that is the text of the id.
  abbrev pub IsUser : ℕ → List (DbUser Decimal) → DbUser Decimal → Type 0
  IsUser id users user = Memᴰ user users × ((user.id ≡ id) ⊎ (reads_as to_lowercase id user ≡ true))

  pub get_id-IsUser :
      (id : ℕ) (users : List (DbUser Decimal)) (user : DbUser Decimal)
      → get_id to_lowercase id users ≡ some user
      → IsUser id users user
  unfolding get_id
  get_id-IsUser id users user found =
      let (there, stands) =
        find-Memᴰ (λ u. u.id == id || reads_as to_lowercase id u) user users found in
      (
        there,
        elim (Bool-cases (user.id == id)) [
          | inl same ↦ inl (ground arith)
          | inr other ↦ inr (ground arith)
        ],
      )
