-- ===== src/Auth/Pats/Kept.antt =====
-- Whose tokens a call changes.
use labrinth.Base.{
  filterb-map, count_if-map, ℕ, String, ◌≡◌, ◌≢◌, inl, inr, refl, sym, ap, ◌∙◌, Bool, true, false,
  Option, none, some, ◌==◌, if◌then◌else◌, ok, arith, Bool-cases, bind-ok, All-map, All-of_Memᴰ,
  All-Memᴰ,
}
use labrinth.Flags.{Bitflags}
use labrinth.Auth.Tokens.{PersonalAccessToken}
use labrinth.Auth.Pats.{
  Pats, Env, ModifyPersonalAccessToken, update, edit_scopes, edit_name, edit_expires, edit_own,
}
use labrinth.Auth.Pats.Rows.{UniqueIds, tokens_of, Foreign}

-- The tokens of a user are the same ones, and the ids are still unique.
abbrev pub Kept : ℕ → Pats → Pats → Type 0
Kept owner rows rows' = (tokens_of owner rows' ≡ tokens_of owner rows) × UniqueIds rows'

-- A change of the columns that a user may edit.
abbrev KeepsOwner : (PersonalAccessToken → PersonalAccessToken) → Type 0
KeepsOwner change =
    (x : PersonalAccessToken) → ((change x).id ≡ x.id) × ((change x).user_id ≡ x.user_id)

chosen :
    (change : PersonalAccessToken → PersonalAccessToken) (b : Bool) (x : PersonalAccessToken)
    → KeepsOwner change
    → ((if b then change x else x).id ≡ x.id) × ((if b then change x else x).user_id ≡ x.user_id)
chosen change true x keeps = keeps x
chosen change false x keeps = (refl, refl)

update-Kept :
    (change : PersonalAccessToken → PersonalAccessToken) (id owner : ℕ) (rows : Pats)
    → KeepsOwner change
    → UniqueIds rows
    → Foreign owner id rows
    → Kept owner rows (update change id rows) × Foreign owner id (update change id rows)
update-Kept change id owner rows keeps unique foreign =
    let f = λ (row : PersonalAccessToken). if row.id == id then change row else row in
    let same = λ (x : PersonalAccessToken). chosen change (x.id == id) x keeps in
    (
      (
        filterb-map (λ row. row.user_id == owner) f rows
            (All-of_Memᴰ _ rows (λ x there. (
              λ owns.
                  let other : (x.id == id) ≡ false =
                    ground
                      (arith, All-Memᴰ (λ x. x.id ≡ id → x.user_id ≢ owner) x rows foreign there) in
                  rw other refl,
              ap (λ user. user == owner) (same x).1,
            ))),
        λ i.
            rw (count_if-map (λ row. row.id == i) f rows (λ x. ap (λ id. id == i) (same x).0))
              (unique i),
      ),
      All-map (λ x. x.id ≡ id → x.user_id ≢ owner) (λ x. x.id ≡ id → x.user_id ≢ owner) f rows
          (λ x h here owns. h (sym (same x).0 ∙ here) (sym (same x).1 ∙ owns)) foreign,
    )

-- One edit after another.
Kept-trans : (owner : ℕ) (a b d : Pats) → Kept owner a b → Kept owner b d → Kept owner a d
Kept-trans owner a b d (p, _) (q, unique) = (q ∙ p, unique)

module _ (flags : Bitflags) (env : Env) where
  edit_scopes-Kept :
      (id owner : ℕ) (scopes : Option ℕ) (rows rows' : Pats)
      → edit_scopes flags env id scopes rows ≡ ok rows'
      → UniqueIds rows
      → Foreign owner id rows
      → Kept owner rows rows' × Foreign owner id rows'
  edit_scopes-Kept id owner none rows rows' h unique foreign =
      let same : rows' ≡ rows = ground arith in rw same ((refl, unique), foreign)
  edit_scopes-Kept id owner (some scopes) rows rows' h unique foreign =
      let same : rows' ≡ update (λ row. record row { scopes = scopes }) id rows = ground arith in
      rw same (
        update-Kept (λ row. record row { scopes = scopes }) id owner rows (λ x. (refl, refl)) unique
          foreign)

  edit_name-Kept :
      (id owner : ℕ) (name : Option String) (rows rows' : Pats)
      → edit_name flags env id name rows ≡ ok rows'
      → UniqueIds rows
      → Foreign owner id rows
      → Kept owner rows rows' × Foreign owner id rows'
  edit_name-Kept id owner none rows rows' h unique foreign =
      let same : rows' ≡ rows = ground arith in rw same ((refl, unique), foreign)
  edit_name-Kept id owner (some name) rows rows' h unique foreign =
      let same : rows' ≡ update (λ row. record row { name = name }) id rows = ground arith in
      rw same (
        update-Kept (λ row. record row { name = name }) id owner rows (λ x. (refl, refl)) unique
          foreign)

  edit_expires-Kept :
      (id owner : ℕ) (expires : Option ℕ) (rows rows' : Pats)
      → edit_expires flags env id expires rows ≡ ok rows'
      → UniqueIds rows
      → Foreign owner id rows
      → Kept owner rows rows' × Foreign owner id rows'
  edit_expires-Kept id owner none rows rows' h unique foreign =
      let same : rows' ≡ rows = ground arith in rw same ((refl, unique), foreign)
  edit_expires-Kept id owner (some expires) rows rows' h unique foreign =
      let same : rows' ≡ update (λ row. record row { expires = expires }) id rows = ground arith in
      rw same (
        update-Kept (λ row. record row { expires = expires }) id owner rows (λ x. (refl, refl))
          unique foreign)

  pub edit_own-Kept :
      (user owner : ℕ) (found : Option PersonalAccessToken) (info : ModifyPersonalAccessToken)
      (rows rows' : Pats)
      → edit_own flags env user found info rows ≡ ok rows'
      → UniqueIds rows
      → user ≢ owner
      → ((pat : PersonalAccessToken)
          → found ≡ some pat
          → pat.user_id ≢ owner
          → Foreign owner pat.id rows)
      → Kept owner rows rows'
  edit_own-Kept user owner none info rows rows' h unique other foreign =
      let same : rows' ≡ rows = ground arith in rw same (refl, unique)
  edit_own-Kept user owner (some pat) info rows rows' h unique other foreign =
      elim (Bool-cases (pat.user_id == user)) [
        | inr e ↦ let same : rows' ≡ rows = ground arith in rw same (refl, unique)
        | inl e ↦
            let not_owner : pat.user_id ≢ owner = λ same. other (ground arith) in
            let (r1, done1, h1) =
              bind-ok (edit_scopes flags env pat.id info.scopes rows) _ rows' (rw e at h) in
            let (r2, done2, h2) = bind-ok (edit_name flags env pat.id info.name r1) _ rows' h1 in
            let (k1, f1) =
              edit_scopes-Kept pat.id owner info.scopes rows r1 done1 unique
                (foreign pat refl not_owner) in
            let (k2, f2) = edit_name-Kept pat.id owner info.name r1 r2 done2 k1.1 f1 in
            let (k3, _) = edit_expires-Kept pat.id owner info.expires r2 rows' h2 k2.1 f2 in
            Kept-trans owner rows r1 rows' k1 (Kept-trans owner r1 r2 rows' k2 k3)
      ]
