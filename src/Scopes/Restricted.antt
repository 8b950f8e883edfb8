-- ===== src/Scopes/Restricted.antt =====
-- Which sets of scopes `restricted` refuses, and the set that a GitHub token is given.
use mathlib.Core.Bool.{false≢true}
use labrinth.Base.{ℕ, Bool-cases, inl, inr, sym, ◌∙◌, arith, ◌≡◌, refl, ◌↔◌, true, false, All}
use labrinth.Flags.{Bitflags}
use labrinth.Flags.Laws.{contains-foldl, contains_by_bits, not_contains_by_bit}
use labrinth.Scopes.{
  restricted, more_restricted, not_restricted, pat_create, pat_write, pat_delete, session_read,
  session_delete,
}

module _ (flags : Bitflags) where
  -- A set of scopes is refused as restricted exactly if it holds all nine of the restricted
  -- scopes at once.
  pub restricted_iff :
      (scopes : ℕ)
      → (restricted flags scopes ≡ true) ↔ (
          (flags.contains scopes pat_create ≡ true)
          × All (λ scope. flags.contains scopes scope ≡ true) more_restricted)
  unfolding restricted
  restricted_iff scopes = contains-foldl flags scopes pat_create more_restricted

  not_restricted_free : restricted flags not_restricted ≡ false
  not_restricted_free = elim (Bool-cases (restricted flags not_restricted)) [
    | inl h ↦ absurd (
        false≢true (
          sym (not_contains_by_bit flags not_restricted pat_create 24 (omega arith) refl refl)
          ∙ ((restricted_iff not_restricted).0 h).0))
    | inr h ↦ h
  ]

  -- The scopes of a GitHub token include four restricted ones, which allow to edit and to delete
  -- personal access tokens and to read and to delete sessions, and are not refused as restricted.
  pub not_restricted_overlap :
      (flags.contains not_restricted pat_write ≡ true)
      × (flags.contains not_restricted pat_delete ≡ true)
      × (flags.contains not_restricted session_read ≡ true)
      × (flags.contains not_restricted session_delete ≡ true)
      × (restricted flags not_restricted ≡ false)
  not_restricted_overlap = (
    contains_by_bits flags not_restricted pat_write refl,
    contains_by_bits flags not_restricted pat_delete refl,
    contains_by_bits flags not_restricted session_read refl,
    contains_by_bits flags not_restricted session_delete refl,
    not_restricted_free,
  )
