-- ===== src/Auth/Flows/Linked.antt =====
-- `update_user_id` and then `get_user_id` of src/auth/flows.rs.
use labrinth.Base.{
  ℕ, String, ◌≡◌, refl, sym, ap, ◌∙◌, Bool, true, false, Option, none, some, List, [], ◌∷◌, any,
  find, ok, arith, ◌==◌, Bool-cases, Option-cases, inl, inr, ==_refl, ==_iff, eq_refl,
}
use labrinth.Users.{AuthProvider, github, discord, microsoft, gitlab, google, steam, DbUser}
use labrinth.Teams.Routes.{is_some}
use labrinth.Auth.Flows.Accounts.{id_of, update}
use labrinth.Auth.Flows.Providers.{account_test, get_user_id, set_account, update_user_id}
use labrinth.Auth.Flows.AlwaysLogin.{set_account-id}

module _ {Decimal : Type 0} where
  abbrev passes : Option (DbUser Decimal → Bool) → DbUser Decimal → Bool
  passes none u = false
  passes (some test) u = test u

  set_account-passes :
      (parse_i64 : String → Option ℕ) (p : AuthProvider) (id : String) (u : DbUser Decimal)
      → is_some (account_test {Decimal = Decimal} parse_i64 p id) ≡ true
      → passes (account_test parse_i64 p id) (set_account parse_i64 p (some id) u) ≡ true
  unfolding account_test set_account
  set_account-passes parse_i64 github id u h = elim (Option-cases (parse_i64 id)) [
    | inl e ↦ absurd (ground arith)
    | inr (n, e) ↦ rw e (==_refl n)
  ]
  set_account-passes parse_i64 discord id u h = elim (Option-cases (parse_i64 id)) [
    | inl e ↦ absurd (ground arith)
    | inr (n, e) ↦ rw e (==_refl n)
  ]
  set_account-passes parse_i64 microsoft id u h = eq_refl id
  set_account-passes parse_i64 gitlab id u h = elim (Option-cases (parse_i64 id)) [
    | inl e ↦ absurd (ground arith)
    | inr (n, e) ↦ rw e (==_refl n)
  ]
  set_account-passes parse_i64 google id u h = eq_refl id
  set_account-passes parse_i64 steam id u h = elim (Option-cases (parse_i64 id)) [
    | inl e ↦ absurd (ground arith)
    | inr (n, e) ↦ rw e (==_refl n)
  ]

  nothing_found : (m : Option (DbUser Decimal)) → id_of m ≡ none → m ≡ none
  nothing_found none h = refl
  nothing_found (some u) h = absurd (ground arith)

  find_updated :
      (test : DbUser Decimal → Bool) (f : DbUser Decimal → DbUser Decimal) (id : ℕ)
      (users : List (DbUser Decimal))
      → ((u : DbUser Decimal) → test (f u) ≡ true)
      → ((u : DbUser Decimal) → (f u).id ≡ u.id)
      → find test users ≡ none
      → any (λ u. u.id == id) users ≡ true
      → id_of (find test (update f id users)) ≡ some id
  find_updated test f id [] passed same free there = absurd (ground arith)
  find_updated test f id (u ∷ users) passed same free there = elim (Bool-cases (u.id == id)) [
    | inl e ↦ rw (e, passed u) (ap some (same u ∙ (==_iff u.id id).0 e))
    | inr e ↦ rw e (ground (arith, find_updated test f id users passed same))
  ]

  -- If nobody has an account of another site and a user with the id exists, then after the account is
  -- linked to this id, a log-in with the account finds the id.
  pub get_user_id-update_user_id :
      (parse_i64 : String → Option ℕ) (p : AuthProvider) (account : String) (id : ℕ)
      (users : List (DbUser Decimal))
      → get_user_id parse_i64 p account users ≡ ok none
      → any (λ u. u.id == id) users ≡ true
      → get_user_id parse_i64 p account (update_user_id parse_i64 p id (some account) users)
        ≡ ok (some id)
  unfolding get_user_id update_user_id
  get_user_id-update_user_id parse_i64 p account id users free there =
      elim (Option-cases (account_test {Decimal = Decimal} parse_i64 p account)) [
        | inl e ↦ absurd (ground arith)
        | inr (test, e) ↦
            let nobody : find test users ≡ none = nothing_found (find test users) (ground arith) in
            let passed : (u : DbUser Decimal)
                → test (set_account parse_i64 p (some account) u) ≡ true =
              λ u.
                ap (λ m. passes m (set_account parse_i64 p (some account) u)) (sym e)
                ∙ set_account-passes parse_i64 p account u (ground arith) in
            rw (get_user_id, e)
              (ap ok (
                find_updated test (set_account parse_i64 p (some account)) id users passed
                  (set_account-id parse_i64 p (some account)) nobody there))
      ]
