-- ===== src/Auth/Flows/Backup.antt =====
-- The deletion of backup codes in `validate_2fa_code` of src/auth/flows.rs.
use labrinth.Base.{
  ℕ, ◌<◌, String, ◌≡◌, inl, inr, refl, ap, ◌∙◌, true, false, List, [], ◌∷◌, arith, Bool-cases, All,
}
use labrinth.Ids.{u64_mod, codes, parse_base62, to_base62}
use labrinth.Ids.Generate.{text_of}
use labrinth.Ids.Rendering.{parse_base62-to_base62}
use labrinth.Auth.Flows.Accounts.{same_codes, get_backup_codes, delete_code}
use labrinth.Auth.Flows.Codes.{code_of, is_backup}

same_codes→eq : (s t : List ℕ) → same_codes s t ≡ true → s ≡ t
same_codes→eq [] [] h = refl
same_codes→eq [] (d ∷ t) h = absurd (ground arith)
same_codes→eq (c ∷ s) [] h = absurd (ground arith)
same_codes→eq (c ∷ s) (d ∷ t) h =
    let e : c ≡ d = ground arith in
    let rest : s ≡ t = same_codes→eq s t (ground arith) in ap (λ x. x ∷ s) e ∙ ap (λ x. d ∷ x) rest

-- A code is stored in 64 bits.
abbrev pub Stored : List (ℕ × ℕ) → Type 0
Stored rows = All (λ row. row.1 < u64_mod) rows

-- The text of a stored code reads as the code.
code_of-text : (val : ℕ) → val < u64_mod → code_of (parse_base62 (text_of (to_base62 val))) ≡ val
code_of-text val small =
    let (s, run, back) = parse_base62-to_base62 val small in rw run (rw back refl)

-- A text that is a code of the user reads as this code.
reads :
    (input : String) (val : ℕ)
    → val < u64_mod
    → same_codes (codes input) (text_of (to_base62 val)) ≡ true
    → code_of (parse_base62 (codes input)) ≡ val
reads input val small h =
    let e = same_codes→eq (codes input) (text_of (to_base62 val)) h in
    ap (λ x. code_of (parse_base62 x)) e ∙ code_of-text val small

-- After the code of a text is deleted, no code of the user has this text.
pub is_backup-delete_code :
    (input : String) (user : ℕ) (rows : List (ℕ × ℕ))
    → Stored rows
    → is_backup input user (delete_code user (code_of (parse_base62 (codes input))) rows) ≡ false
unfolding get_backup_codes
is_backup-delete_code input user [] small = refl
is_backup-delete_code input user (row ∷ rows) (small, rest) =
    elim (Bool-cases (same_codes (codes input) (text_of (to_base62 row.1)))) [
      | inl e ↦
          ground (arith, reads input row.1 small e, is_backup-delete_code input user rows rest)
      | inr e ↦ ground (arith, is_backup-delete_code input user rows rest)
    ]
