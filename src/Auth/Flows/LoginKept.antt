-- ===== src/Auth/Flows/LoginKept.antt =====
-- Changes of the rows of users, and the ways to log in that the rows have.
use mathlib.Core.List.{Memᴰ}
use labrinth.Base.{
  ℕ, ◌+◌, ◌≤◌, String, ◌≡◌, refl, sym, ap, true, ◌||◌, Option, none, some, List, [], ◌∷◌, ◌++◌,
  length, count_if, count_if-map, ltb, ◌==◌, if◌then◌else◌, arith, Bool-cases, inl, inr, All,
  one_row, ==_refl,
}
use labrinth.Users.{AuthProvider, github, discord, microsoft, gitlab, google, steam, DbUser}
use labrinth.Teams.Routes.{is_some}
use labrinth.Auth.Validate.{private_user, provider}
use labrinth.Auth.Flows.Accounts.{update}
use labrinth.Auth.Flows.Providers.{set_account, account_test}
use labrinth.Auth.Flows.Password.{has_provider}
use labrinth.Auth.Flows.TwoFactor.{or_false}
use labrinth.Auth.Flows.Linking.{several}

module _ {Decimal : Type 0} where
  -- A user has a password or the account of another site.
  abbrev pub HasLogin : DbUser Decimal → Type 0
  HasLogin u = (is_some u.password || has_provider u) ≡ true

  -- Every user can log in, and no two users have the same id.
  abbrev pub LoginKept : List (DbUser Decimal) → Type 0
  LoginKept users = All HasLogin users × ((i : ℕ) → count_if (λ u. u.id == i) users ≤ 1)

  pub update-All :
      (P : DbUser Decimal → Type 0) (f : DbUser Decimal → DbUser Decimal) (id : ℕ)
      (users : List (DbUser Decimal))
      → ((r : DbUser Decimal) → Memᴰ r users → (r.id == id) ≡ true → P r → P (f r))
      → All P users
      → All P (update f id users)
  update-All P f id [] step h = tt
  update-All P f id (u ∷ users) step (h, rest) = (
    elim (Bool-cases (u.id == id)) [ inl e ↦ rw e (step u (Memᴰ.head refl) e h) | inr e ↦ rw e h ],
    update-All P f id users (λ r there. step r (Memᴰ.tail there)) rest,
  )

  pub update-LoginKept :
      (f : DbUser Decimal → DbUser Decimal) (id : ℕ) (users : List (DbUser Decimal))
      → ((r : DbUser Decimal) → (f r).id ≡ r.id)
      → ((r : DbUser Decimal) → Memᴰ r users → (r.id == id) ≡ true → HasLogin r → HasLogin (f r))
      → LoginKept users
      → LoginKept (update f id users)
  update-LoginKept f id users same step (all, one) = (
    update-All HasLogin f id users step all,
    λ i. ground (
      arith,
      one i,
      count_if-map (λ u. u.id == i) (λ u. if u.id == id then f u else u) users
          (λ x. elim (Bool-cases (x.id == id)) [ inl e ↦ rw (e, same x) refl | inr e ↦ rw e refl ]),
    ),
  )

  -- The row with the id of a given row is this row.
  pub update_own :
      (f : DbUser Decimal → DbUser Decimal) (u : DbUser Decimal) (users : List (DbUser Decimal))
      → ((r : DbUser Decimal) → (f r).id ≡ r.id)
      → Memᴰ u users
      → (HasLogin u → HasLogin (f u))
      → LoginKept users
      → LoginKept (update f u.id users)
  update_own f u users same there step kept =
      update-LoginKept f u.id users same
        (λ r r_there e h.
          let it =
            one_row (λ x. x.id == u.id) u r users (kept.1 u.id) there (==_refl u.id) r_there e in
          rw (sym it) (step (rw it h)))
        kept

abbrev one_of {ℓ} : {A : Type ℓ} → Option A → ℕ
one_of o = if is_some o then 1 else 0

one_more :
    {A : Type 0} (p : AuthProvider) (o : Option A) (rest : List AuthProvider) (n : ℕ)
    → length rest ≡ n
    → length (provider p o ++ rest) ≡ one_of o + n
one_more p none rest n h = ground (arith, h)
one_more p (some a) rest n h = ground (arith, h)

last_one : {A : Type 0} (p : AuthProvider) (o : Option A) → length (provider p o) ≡ one_of o
last_one p none = refl
last_one p (some a) = refl

module _ {Decimal : Type 0} where
  providers-count :
      (u : DbUser Decimal)
      → several (private_user u).auth_providers
        ≡ ltb 1 (
            one_of u.github_id
            + (one_of u.gitlab_id
                + (one_of u.discord_id
                    + (one_of u.google_id + (one_of u.microsoft_id + one_of u.steam_id)))))
  unfolding private_user
  providers-count u =
      ap (λ n. ltb 1 n)
        (one_more github u.github_id _ _ (
          one_more gitlab u.gitlab_id _ _ (
            one_more discord u.discord_id _ _ (
              one_more google u.google_id _ _
                (one_more microsoft u.microsoft_id _ _ (last_one steam u.steam_id))))))

  -- text
  pub removed-HasLogin :
      (parse_i64 : String → Option ℕ) (p : AuthProvider) (u : DbUser Decimal)
      → (several (private_user u).auth_providers || or_false (private_user u).has_password) ≡ true
      → HasLogin (set_account parse_i64 p none u)
  unfolding set_account private_user
  removed-HasLogin parse_i64 github u h = ground (arith, providers-count u)
  removed-HasLogin parse_i64 discord u h = ground (arith, providers-count u)
  removed-HasLogin parse_i64 microsoft u h = ground (arith, providers-count u)
  removed-HasLogin parse_i64 gitlab u h = ground (arith, providers-count u)
  removed-HasLogin parse_i64 google u h = ground (arith, providers-count u)
  removed-HasLogin parse_i64 steam u h = ground (arith, providers-count u)

  pub linked-HasLogin :
      (parse_i64 : String → Option ℕ) (p : AuthProvider) (id : String) (u : DbUser Decimal)
      → is_some (account_test {Decimal = Decimal} parse_i64 p id) ≡ true
      → HasLogin (set_account parse_i64 p (some id) u)
  unfolding set_account account_test
  linked-HasLogin parse_i64 github id u h = ground arith
  linked-HasLogin parse_i64 discord id u h = ground arith
  linked-HasLogin parse_i64 microsoft id u h = ground arith
  linked-HasLogin parse_i64 gitlab id u h = ground arith
  linked-HasLogin parse_i64 google id u h = ground arith
  linked-HasLogin parse_i64 steam id u h = ground arith
