-- ===== src/Auth/Validate/Scoped.antt =====
-- What a route that asks for scopes, or for a moderator, may rely on.
use labrinth.Base.{
  String, ◌⊎◌, eq_iff, ℕ, ◌≡◌, ◌↔◌, refl, true, Option, none, some, List, [], ◌∷◌, All, Bool-cases,
  inl, inr, arith, ok, Result-cases,
}
use labrinth.Flags.{Bitflags}
use labrinth.Users.{DbUser, User}
use labrinth.Users.Role
use labrinth.Queue.Auth.{AuthQueue}
use labrinth.Auth.Validate.{
  Request, Backend, has_scopes, check_record, private_user, get_user_record_from_bearer_token,
  get_user_from_headers, check_is_moderator_from_headers,
}

has_scopes_iff :
    (flags : Bitflags) (scopes : ℕ) (required : List ℕ)
    → (has_scopes flags scopes required ≡ true)
      ↔ All (λ scope. flags.contains scopes scope ≡ true) required
unfolding has_scopes
has_scopes_iff flags scopes [] = (λ h. tt, λ h. refl)
has_scopes_iff flags scopes (scope ∷ required) = elim (Bool-cases (flags.contains scopes scope)) [
  | inl held ↦
      let (p, q) = has_scopes_iff flags scopes required in
      (λ h. (held, p (ground arith)), λ h. ground (arith, q h.1))
  | inr missing ↦ (λ h. absurd (ground arith), λ h. absurd (ground arith))
]

module _ {Decimal : Type 0} (flags : Bitflags) (b : Backend Decimal) (req : Request) where
  check_record_inv :
      (required : List ℕ) (found : Option (ℕ × DbUser Decimal)) (scopes : ℕ) (user : User Decimal)
      → check_record flags required found ≡ ok (scopes, user)
      → (db_user : DbUser Decimal) × (found ≡ some (scopes, db_user))
        × (user ≡ private_user db_user)
        × (has_scopes flags scopes required ≡ true)
  unfolding check_record
  check_record_inv required none scopes user h = absurd (ground arith)
  check_record_inv required (some (s, db_user)) scopes user h =
      (db_user, ground arith, ground arith, ground arith)

  -- A route that asks for scopes and is given a user has the record of that user from the bearer
  -- token of the request, and each of the scopes is one of those that the token gives.
  pub scopes_enforced :
      (required : List ℕ) (q : AuthQueue) (scopes : ℕ) (user : User Decimal)
      → (get_user_from_headers flags b req (some required) q).0 ≡ ok (scopes, user)
      → (db_user : DbUser Decimal) × (q' : AuthQueue) × (get_user_record_from_bearer_token b req
            none q
          ≡ ok (some (scopes, db_user), q'))
        × (user.id ≡ db_user.id)
        × All (λ scope. flags.contains scopes scope ≡ true) required
  unfolding get_user_from_headers
  scopes_enforced required q scopes user h =
      elim (Result-cases (get_user_record_from_bearer_token b req none q)) [
        | inr (x, e) ↦ absurd (ground arith)
        | inl ((found, q'), e) ↦
            let (db_user, f, same, held) =
              check_record_inv required found scopes user (ground arith) in
            (db_user, q', ground arith, ground arith, (has_scopes_iff flags scopes required).0 held)
      ]

  is_mod-from_string :
      (s : String) → Role.is_mod (Role.from_string s) ≡ true → (s ≡ "admin") ⊎ (s ≡ "moderator")
  unfolding Role.is_mod Role.from_string
  is_mod-from_string s h = ground (arith, eq_iff s "admin", eq_iff s "moderator")

  -- A route that asks for a moderator and is given a user has a record from the bearer token of
  -- the request whose stored role is "admin" or "moderator".
  pub moderator_enforced :
      (q : AuthQueue) (user : User Decimal)
      → (check_is_moderator_from_headers flags b req q).0 ≡ ok user
      → (scopes : ℕ) × (db_user : DbUser Decimal) × (q' : AuthQueue)
        × (get_user_record_from_bearer_token b req none q ≡ ok (some (scopes, db_user), q'))
        × (user.id ≡ db_user.id)
        × ((db_user.role ≡ "admin") ⊎ (db_user.role ≡ "moderator"))
  unfolding check_is_moderator_from_headers get_user_from_headers
  moderator_enforced q user h =
      elim (Result-cases (get_user_record_from_bearer_token b req none q)) [
        | inr (x, e) ↦ absurd (ground arith)
        | inl ((found, q'), e) ↦ elim (Result-cases (check_record flags [] found)) [
          | inr (x, f) ↦ absurd (ground arith)
          | inl ((scopes, u), f) ↦
              let (db_user, g, same, held) = check_record_inv [] found scopes u f in
              let role : Role.is_mod u.role ≡ true = ground arith in
              (
                scopes,
                db_user,
                q',
                ground arith,
                ground arith,
                is_mod-from_string db_user.role (ground (arith)),
              )
        ]
      ]
