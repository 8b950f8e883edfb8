-- ===== src/Auth/Pats/Owned.antt =====
-- No call changes the tokens of another user.
use labrinth.Base.{
  filterb-filterb, filterb-append, ℕ, ◌≡◌, ◌≢◌, inl, inr, refl, ◌∙◌, Bool, false, not, ◌||◌, Option,
  none, some, [], ◌∷◌, ◌++◌, any, ◌==◌, str_eq, ok, arith, Bool-cases, Option-cases, bind-ok,
  Result-cases, All-of_Memᴰ, All-Memᴰ, count_if-append, count_if-any-false, count_if-filterb,
}
use labrinth.Flags.{Bitflags}
use labrinth.Users.{User}
use labrinth.Api.{no_content}
use labrinth.Auth.Tokens.{PersonalAccessToken}
use labrinth.Auth.Pats.{
  Pats, get, insert, remove, new_token, edit_own, delete_own, create_pat, edit_pat, delete_pat,
}
use labrinth.Auth.Pats.Rows.{UniqueIds, Foreign, get-Foreign}
use labrinth.Auth.Pats.Kept.{Kept, edit_own-Kept}
use labrinth.Auth.Pats.Steps.{Step, create, edit, delete, Reach, here, next}

any_less :
    (p q : PersonalAccessToken → Bool) (rows : Pats)
    → any (λ row. p row || q row) rows ≡ false
    → any p rows ≡ false
any_less p q [] h = refl
any_less p q (r ∷ rows) h = ground (arith, any_less p q rows)

module _ (flags : Bitflags) where
  delete_own-Kept :
      (user owner : ℕ) (found : Option PersonalAccessToken) (rows : Pats)
      → UniqueIds rows
      → user ≢ owner
      → ((pat : PersonalAccessToken)
          → found ≡ some pat
          → pat.user_id ≢ owner
          → Foreign owner pat.id rows)
      → Kept owner rows (delete_own user found rows)
  unfolding remove
  delete_own-Kept user owner none rows unique other foreign = (refl, unique)
  delete_own-Kept user owner (some pat) rows unique other foreign =
      elim (Bool-cases (pat.user_id == user)) [
        | inr e ↦ rw e (refl, unique)
        | inl e ↦ rw e (
          filterb-filterb (λ row. row.user_id == owner) (λ row. not (row.id == pat.id)) rows
              (All-of_Memᴰ _ rows (λ x there owns. ground (
                arith,
                All-Memᴰ (λ x. x.id ≡ pat.id → x.user_id ≢ owner) x rows
                    (foreign pat refl (λ same. other (ground arith))) there,
              ))),
          λ i. ground (
            arith,
            unique i,
            count_if-filterb (λ row. row.id == i) (λ row. row.id == pat.id) rows,
          ),
        )
      ]

  insert-Kept :
      (now owner : ℕ) (token : PersonalAccessToken) (rows rows' : Pats)
      → insert now token rows ≡ ok rows'
      → UniqueIds rows
      → token.user_id ≢ owner
      → Kept owner rows rows'
  unfolding insert
  insert-Kept now owner token rows rows' h unique other =
      let row = record token { created = now; last_used = none } in
      let added : rows' ≡ rows ++ row ∷ [] = ground arith in
      rw added (
        filterb-append (λ row. row.user_id == owner) rows row (ground arith),
        λ i. ground (
          arith,
          unique i,
          count_if-append (λ x. x.id == i) rows (row ∷ []),
          count_if-any-false (λ x. x.id == token.id) rows
              (any_less (λ x. x.id == token.id) (λ x. str_eq x.access_token token.access_token) rows
                (ground arith)),
        ),
      )

module _ {Decimal : Type 0} (flags : Bitflags) where
  Step-Kept :
      (owner scopes : ℕ) (user : User Decimal) (rows rows' : Pats)
      → Step Decimal flags scopes user rows rows'
      → UniqueIds rows
      → user.id ≢ owner
      → Kept owner rows rows'
  unfolding create_pat edit_pat delete_pat
  Step-Kept owner scopes user rows rows' (create env info shown h) unique other =
      elim (Option-cases (env.new_id rows)) [
        | inl e ↦ absurd (ground arith)
        | inr (id, e) ↦
            elim (Result-cases (insert env.now (new_token flags env user info id) rows)) [
              | inr (x, f) ↦ absurd (ground arith)
              | inl (rows1, f) ↦
                  let same : rows' ≡ rows1 = ground arith in
                  rw same (
                    insert-Kept flags env.now owner (new_token flags env user info id) rows rows1 f
                      unique other)
            ]
      ]
  Step-Kept owner scopes user rows rows' (edit env id info h) unique other =
      let (rows1, done, rest) =
        bind-ok (edit_own flags env user.id (get flags id rows) info rows) _ (no_content, rows')
          h in
      let same : rows' ≡ rows1 = ground arith in
      rw same (
        edit_own-Kept flags env user.id owner (get flags id rows) info rows rows1 done unique other
          (λ pat. get-Foreign flags owner id rows pat unique))
  Step-Kept owner scopes user rows rows' (delete env id h) unique other =
      let same : rows' ≡ delete_own user.id (get flags id rows) rows = ground arith in
      rw same (
        delete_own-Kept flags user.id owner (get flags id rows) rows unique other
          (λ pat. get-Foreign flags owner id rows pat unique))

  -- If no two tokens have the same id, then creating, editing and deleting tokens by users other
  -- than one, in any order, leaves the tokens of this one as they are, and no two tokens have the
  -- same id afterwards.
  pub Reach-Kept :
      (owner : ℕ) {rows rows' : Pats}
      → UniqueIds rows
      → Reach Decimal flags owner rows rows'
      → Kept owner rows rows'
  Reach-Kept owner unique here = (refl, unique)
  Reach-Kept owner {rows} {rows'} unique (next {rows' = mid} scopes user before other step) =
      let (same, still) = Reach-Kept owner unique before in
      let (same', still') = Step-Kept owner scopes user mid rows' step still other in
      (same' ∙ same, still')
