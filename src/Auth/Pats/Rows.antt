-- ===== src/Auth/Pats/Rows.antt =====
-- The rows of `pats`: their ids, and the rows that belong to a user.
use mathlib.Core.List.{Memᴰ}
use labrinth.Base.{
  one_row, ℕ, ◌≤◌, String, ◌≡◌, ◌≢◌, inl, inr, sym, ap, ◌∙◌, some, [], ◌∷◌, filterb, count_if, ltb,
  ◌==◌, arith, All, Bool-cases, Option-cases, All-of_Memᴰ,
}
use labrinth.Flags.{Bitflags}
use labrinth.Auth.Tokens.{PersonalAccessToken}
use labrinth.Teams.Rows.{Memᴰ-filterb}
use labrinth.Auth.Pats.{Pats, newest, is_named, get, read_row}

-- No two rows have the same id.
abbrev pub UniqueIds : Pats → Type 0
UniqueIds rows = (id : ℕ) → count_if (λ (row : PersonalAccessToken). row.id == id) rows ≤ 1

-- The tokens of a user.
abbrev pub tokens_of : ℕ → Pats → Pats
tokens_of owner rows = filterb (λ row. row.user_id == owner) rows

newest-Memᴰ : (x : PersonalAccessToken) (rows : Pats) → newest rows ≡ some x → Memᴰ x rows
unfolding newest
newest-Memᴰ x [] h = absurd (ground arith)
newest-Memᴰ x (r ∷ rows) h = elim (Option-cases (newest rows)) [
  | inl e ↦ Memᴰ.head (ground arith)
  | inr (best, e) ↦ elim (Bool-cases (ltb r.created best.created)) [
    | inl older ↦ let same : x ≡ best = ground arith in Memᴰ.tail (newest-Memᴰ x rows (rw same e))
    | inr newer ↦ Memᴰ.head (ground arith)
  ]
]

get-Memᴰ :
    (flags : Bitflags) (string : String) (rows : Pats) (pat : PersonalAccessToken)
    → get flags string rows ≡ some pat
    → (row : PersonalAccessToken) × Memᴰ row rows × (row.id ≡ pat.id) × (row.user_id ≡ pat.user_id)
unfolding get read_row
get-Memᴰ flags string rows pat h = elim (Option-cases (newest (filterb (is_named string) rows))) [
  | inl e ↦ absurd (ground arith)
  | inr (row, e) ↦ (
    row,
    (Memᴰ-filterb (is_named string) row rows
        (newest-Memᴰ row (filterb (is_named string) rows) e)).0,
    ground arith,
    ground arith,
  )
]

-- The rows of an id are of other users.
abbrev pub Foreign : ℕ → ℕ → Pats → Type 0
Foreign owner id rows = All (λ row. row.id ≡ id → row.user_id ≢ owner) rows

pub get-Foreign :
    (flags : Bitflags) (owner : ℕ) (string : String) (rows : Pats) (pat : PersonalAccessToken)
    → UniqueIds rows
    → get flags string rows ≡ some pat
    → pat.user_id ≢ owner
    → Foreign owner pat.id rows
get-Foreign flags owner string rows pat unique h other =
    let (row, there, same_id, same_user) = get-Memᴰ flags string rows pat h in
    All-of_Memᴰ (λ x. x.id ≡ pat.id → x.user_id ≢ owner) rows
      (λ x m same owns.
        let e =
          one_row (λ (r : PersonalAccessToken). r.id == pat.id) x row rows (unique pat.id) m
            (ground arith) there (ground arith) in
        other (sym same_user ∙ ap (λ (r : PersonalAccessToken). r.user_id) (sym e) ∙ owns))
