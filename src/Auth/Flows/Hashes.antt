-- ===== src/Auth/Flows/Hashes.antt =====
-- The new hash of a password.
use labrinth.Base.{ℕ, String, ◌≡◌, refl, true, Option, none, some, List, ok, arith, [], ◌∷◌, ◌≤◌}
use labrinth.Flags.{Bitflags}
use labrinth.Users.{DbUser}
use labrinth.Api.{ApiError}
use labrinth.Auth.Flows.{Outside, Env, some_or}
use labrinth.Auth.Flows.Password.{
  ChangePassword, scored, or_empty, has_provider, strong_hash, new_password_hash,
}
use labrinth.Auth.Flows.Runs.{resume-ok, lift-ok, check-ok}

module _ {Decimal : Type 0} (flags : Bitflags) (env : Env Decimal) where
  -- The new hash, `none` only for a user who has the account of another site.
  pub data NewHash (p : ChangePassword) (user : DbUser Decimal) : Option String → Type 0 where
    changed :
        (password hash : String)
        → p.new_password ≡ some password
        → (score : ℕ) × (warning : Option String) × (env.zxcvbn password
              (user.username ∷ or_empty user.email ∷ or_empty user.name ∷ [])
            ≡ some (score, warning))
          × (3 ≤ score)
        → env.hash_password password ≡ some hash
        → NewHash p user (some hash)
    removed : p.new_password ≡ none → has_provider user ≡ true → NewHash p user none

  scored-ok :
      (scores : Option (ℕ × Option String)) (u : Unit {0})
      → scored scores ≡ ok u
      → (score : ℕ) × (warning : Option String) × (scores ≡ some (score, warning)) × (3 ≤ score)
  scored-ok none u h = absurd (ground arith)
  scored-ok (some (score, warning)) u h = (score, warning, refl, ground arith)

  hashed :
      (found : Option String) (e : ApiError) (hash : String) (o o' : Outside)
      → some_or found e o ≡ (ok hash, o')
      → (found ≡ some hash) × (o' ≡ o)
  hashed none e hash o o' h = absurd (ground arith)
  hashed (some x) e hash o o' h = (ground arith, ground arith)

  strong_hash-ok :
      (password : String) (texts : List String) (hash : String) (o o' : Outside)
      → strong_hash env password texts o ≡ (ok hash, o')
      → ((score : ℕ) × (warning : Option String) × (env.zxcvbn password texts
            ≡ some (score, warning))
          × (3 ≤ score))
        × (env.hash_password password ≡ some hash)
        × (o' ≡ o)
  unfolding strong_hash
  strong_hash-ok password texts hash o o' h =
      let (u, f1, h1) = lift-ok (scored (env.zxcvbn password texts)) _ h in
      let (stored, same) =
        hashed (env.hash_password password) ApiError.password_hashing hash o o' h1 in
      (scored-ok (env.zxcvbn password texts) u f1, stored, same)

  pub new_password_hash-NewHash :
      (p : ChangePassword) (user : DbUser Decimal) (given : Option String) (hash : Option String)
      (o o' : Outside)
      → p.new_password ≡ given
      → new_password_hash env flags user given o ≡ (ok hash, o')
      → NewHash p user hash × (o' ≡ o)
  unfolding new_password_hash
  new_password_hash-NewHash p user none hash o o' e h =
      let (f1, h1) = check-ok (has_provider user) _ _ h in
      let same : hash ≡ none = ground arith in (rw same (removed e f1), ground arith)
  new_password_hash-NewHash p user (some password) hash o o' e h =
      let (made, o1, f1, h1) =
        resume-ok
          (strong_hash env password (user.username ∷ or_empty user.email ∷ or_empty user.name ∷ [])
            o)
          _ h in
      let (strong, stored, same) = strong_hash-ok password _ made o o1 f1 in
      let it : hash ≡ some made = ground arith in
      (rw it (changed password made e strong stored), ground arith)
