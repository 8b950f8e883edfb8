-- ===== src/Auth/Flows/NewCodes.antt =====
-- The backup codes of `finish_2fa_flow` of src/auth/flows.rs.
use labrinth.Base.{
  ℕ, zero, suc, String, ◌≡◌, refl, sym, ap, ◌∙◌, Bool, false, Option, none, some, List, [], ◌∷◌,
  ◌++◌, length, ok, arith, ◌==◌, Option-cases, Bool-cases, str_eq, eq_iff, inl, inr,
}
use labrinth.Flags.{Bitflags}
use labrinth.Users.{User}
use labrinth.Api.{ApiError, Response, json}
use labrinth.Ids.{to_base62, random_base62_rng}
use labrinth.Ids.Generate.{text_of}
use labrinth.Teams.Routes.{Auth, current_user}
use labrinth.Auth.Flows.{
  Outside, Db, Env, Flow, o_auth, login2fa, initialize2fa, forgot_password, confirm_email,
  minecraft_auth, get, remove,
}
use labrinth.Auth.Flows.Accounts.{get_backup_codes, delete_codes, update}
use labrinth.Auth.Flows.Codes.{validate_2fa_code, with_text, new_codes}
use labrinth.Auth.Flows.Mails.{notify}
use labrinth.Auth.Flows.Login.{LoginTwoFactor}
use labrinth.Auth.Flows.TwoFactor.{secret_flow, finish_2fa_flow}
use labrinth.Auth.Flows.Runs.{resume-ok, lift-ok, as_api-ok, some_or-ok, check-ok, tables-ok}

codes-append :
    (user val : ℕ) (rows : List (ℕ × ℕ))
    → get_backup_codes user (rows ++ (user, val) ∷ [])
      ≡ get_backup_codes user rows ++ text_of (to_base62 val) ∷ []
unfolding get_backup_codes
codes-append user val [] = ground arith
codes-append user val (row ∷ rows) = ground (arith, codes-append user val rows)

codes-delete_codes :
    (user : ℕ) (rows : List (ℕ × ℕ)) → get_backup_codes user (delete_codes user rows) ≡ []
unfolding get_backup_codes
codes-delete_codes user [] = refl
codes-delete_codes user (row ∷ rows) = ground (arith, codes-delete_codes user rows)

append_assoc :
    {A : Type 0} (xs : List A) (y : A) (zs : List A) → (xs ++ y ∷ []) ++ zs ≡ xs ++ y ∷ zs
append_assoc [] y zs = refl
append_assoc (x ∷ xs) y zs = ap (λ l. x ∷ l) (append_assoc xs y zs)

append_nil : {A : Type 0} (xs : List A) → xs ++ [] ≡ xs
append_nil [] = refl
append_nil (x ∷ xs) = ap (λ l. x ∷ l) (append_nil xs)

with_text-some :
    (val : ℕ) (m : Option (List (List ℕ) × List (ℕ × ℕ))) (texts : List (List ℕ))
    (rows' : List (ℕ × ℕ))
    → with_text val m ≡ some (texts, rows')
    → (rest : List (List ℕ)) × (m ≡ some (rest, rows')) × (texts ≡ text_of (to_base62 val) ∷ rest)
with_text-some val none texts rows' h = absurd (ground arith)
with_text-some val (some (rest, rows)) texts rows' h = (rest, ground arith, ground arith)

new_codes-stored :
    (gen_range : ℕ → ℕ → ℕ → ℕ) (rounds i user : ℕ) (rows rows' : List (ℕ × ℕ))
    (texts : List (List ℕ))
    → new_codes gen_range rounds i user rows ≡ some (texts, rows')
    → (get_backup_codes user rows' ≡ get_backup_codes user rows ++ texts) × (length texts ≡ rounds)
unfolding new_codes
new_codes-stored gen_range zero i user rows rows' texts h =
    let none_left : texts ≡ [] = ground arith in
    let same : rows' ≡ rows = ground arith in
    rw (none_left, same) (sym (append_nil (get_backup_codes user rows)), refl)
new_codes-stored gen_range (suc rounds) i user rows rows' texts h =
    elim (Option-cases (random_base62_rng (gen_range i) 11)) [
      | inl e ↦ absurd (ground arith)
      | inr (val, e) ↦
          let (rest, more, first) =
            with_text-some val (new_codes gen_range rounds (suc i) user (rows ++ (user, val) ∷ []))
              texts rows' (ground arith) in
          let (stored, count) =
            new_codes-stored gen_range rounds (suc i) user (rows ++ (user, val) ∷ []) rows' rest
              more in
          let all =
            stored
            ∙ ap (λ l. l ++ rest) (codes-append user val rows)
            ∙ append_assoc (get_backup_codes user rows) (text_of (to_base62 val)) rest in
          rw first (all, ground arith)
    ]

secret_flow-eq :
    (flow : Flow) (init : ℕ × String)
    → secret_flow flow ≡ some init
    → flow ≡ initialize2fa init.0 init.1
secret_flow-eq (initialize2fa a b) init h = ground arith
secret_flow-eq (login2fa a) init h = absurd (ground arith)
secret_flow-eq (o_auth a b c) init h = absurd (ground arith)
secret_flow-eq (forgot_password a) init h = absurd (ground arith)
secret_flow-eq (confirm_email a b) init h = absurd (ground arith)
secret_flow-eq minecraft_auth init h = absurd (ground arith)

-- Where no backup code is allowed, the code is the one that TOTP has now.
first_code :
    (generate_current : String → Option String) (input secret : String) (user : ℕ)
    (rows rows' : List (ℕ × ℕ)) (accepts : Bool)
    → validate_2fa_code generate_current input secret false user rows ≡ ok (accepts, rows')
    → (generate_current secret ≡ some input) × (rows' ≡ rows)
unfolding validate_2fa_code
first_code generate_current input secret user rows rows' accepts h =
    elim (Option-cases (generate_current secret)) [
      | inl e ↦ absurd (ground arith)
      | inr (token, e) ↦ elim (Bool-cases (str_eq input token)) [
        | inl same ↦ (e ∙ ap some (sym ((eq_iff input token).0 same)), ground arith)
        | inr other ↦ absurd (ground arith)
      ]
    ]

module _ {Decimal : Type 0} (flags : Bitflags) (env : Env Decimal) where
  -- A second factor is set up by a live flow of the user who calls, with the secret of this flow,
  -- for which TOTP has the given code now. The answer is a list of six texts, and these are then
  -- all the backup codes of the user: those of before are gone.
  pub finish_2fa_flow-codes :
      (auth : Auth Decimal) (login : LoginTwoFactor) (db db' : Db Decimal) (o o' : Outside)
      (answer : Response (List (List ℕ)))
      → finish_2fa_flow flags env auth login db o ≡ (ok (answer, db'), o')
      → (id : ℕ) × (secret : String) × (user : User Decimal) × (texts : List (List ℕ)) × (get
            login.flow env.sessions.now o.flows
          ≡ some (initialize2fa id secret))
        × (current_user auth ≡ ok user)
        × (user.id ≡ id)
        × (env.generate_current secret ≡ some login.code)
        × (answer ≡ json texts)
        × (length texts ≡ 6)
        × (get_backup_codes id db'.user_backup_codes ≡ texts)
        × (db'.users ≡ update (λ u. record u { totp_secret = some secret }) id db.users)
  unfolding finish_2fa_flow remove
  finish_2fa_flow-codes auth login db db' o o' answer h =
      let (flow, f1, h1) = some_or-ok (get login.flow env.sessions.now o.flows) _ _ h in
      let (init, f2, h2) = some_or-ok (secret_flow flow) _ _ h1 in
      let (user, f3, h3) = lift-ok (current_user auth) _ h2 in
      let (f4, h4) = check-ok (user.id == init.0) _ _ h3 in
      let (valid, f5, h5) =
        as_api-ok
          (validate_2fa_code env.generate_current login.code init.1 false user.id
            db.user_backup_codes)
          _ h4 in
      let (f6, h6) = check-ok valid.0 _ _ h5 in
      let (codes, f7, h7) =
        some_or-ok (new_codes env.gen_range 6 0 init.0 (delete_codes init.0 valid.1)) _ _ h6 in
      let (_, o8, f8, h8) =
        resume-ok
          (notify ApiError.mail env user.email "Two-factor authentication enabled"
            (remove {E = ApiError} login.flow o).1)
          _ h7 in
      let made : Db Decimal = record db {
        users = update (λ u. record u { totp_secret = some init.1 }) init.0 db.users;
        user_backup_codes = codes.1;
      } in
      let tables : made ≡ db' = tables-ok (json codes.0) answer made db' h8 in
      let (current, rest) =
        first_code env.generate_current login.code init.1 user.id db.user_backup_codes valid.1
          valid.0 f5 in
      let (stored, count) =
        new_codes-stored env.gen_range 6 0 init.0 (delete_codes init.0 valid.1) codes.1 codes.0
          f7 in
      (
        init.0,
        init.1,
        user,
        codes.0,
        f1 ∙ ap some (secret_flow-eq flow init f2),
        f3,
        ground arith,
        current,
        ground arith,
        count,
        ap (λ (x : Db Decimal). get_backup_codes init.0 x.user_backup_codes) (sym tables)
            ∙ (stored ∙ ap (λ l. l ++ codes.0) (codes-delete_codes init.0 valid.1)),
        sym (ap (λ (x : Db Decimal). x.users) tables),
      )
