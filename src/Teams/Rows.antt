-- ===== src/Teams/Rows.antt =====
-- The queries and updates of `team_members`.
use mathlib.Core.List.{Memᴰ}
use labrinth.Base.{
  ℕ, ◌≡◌, refl, ◌⊎◌, inl, inr, Bool, true, false, ◌&&◌, some, List, [], ◌∷◌, map, find, filterb,
  any, ◌==◌, arith, Bool-cases, Option-cases,
}
use labrinth.Flags.{Bitflags}
use labrinth.Teams.{
  DbTeamMember, Rows, is_of, read_row, insert_ordered, order_by_ordering, get_from_user_id_many,
  get_from_user_id, first, get_from_user_id_pending,
}

module _ {ℓ} {A : Type ℓ} where
  mem_cases : {x y : A} {xs : List A} → Memᴰ x (y ∷ xs) → (x ≡ y) ⊎ Memᴰ x xs
  mem_cases (Memᴰ.head e) = inl e
  mem_cases (Memᴰ.tail m) = inr m

  pub Memᴰ-filterb :
      (p : A → Bool) (x : A) (xs : List A) → Memᴰ x (filterb p xs) → Memᴰ x xs × (p x ≡ true)
  Memᴰ-filterb p x [] m = elim m [ ]
  Memᴰ-filterb p x (y ∷ xs) m = elim (Bool-cases (p y)) [
    | inl e ↦ elim (mem_cases (kept e m)) [
      | inl same ↦ (Memᴰ.head same, rw same e)
      | inr rest ↦ let (there, holds) = Memᴰ-filterb p x xs rest in (Memᴰ.tail there, holds)
    ]
    | inr e ↦ let (there, holds) = Memᴰ-filterb p x xs (dropped e m) in (Memᴰ.tail there, holds)
  ]
    where
      kept : p y ≡ true → Memᴰ x (filterb p (y ∷ xs)) → Memᴰ x (y ∷ filterb p xs)
      kept e m = rw e at m

      dropped : p y ≡ false → Memᴰ x (filterb p (y ∷ xs)) → Memᴰ x (filterb p xs)
      dropped e m = rw e at m

  pub find-Memᴰ :
      (p : A → Bool) (x : A) (xs : List A) → find p xs ≡ some x → Memᴰ x xs × (p x ≡ true)
  find-Memᴰ p x [] h = absurd (ground arith)
  find-Memᴰ p x (y ∷ xs) h = elim (Bool-cases (p y)) [
    | inl e ↦ let same : x ≡ y = ground arith in (Memᴰ.head same, rw same e)
    | inr e ↦ let (there, holds) = find-Memᴰ p x xs (ground arith) in (Memᴰ.tail there, holds)
  ]

module _ {Decimal : Type 0} where
  first-insert_ordered :
      (row x : DbTeamMember Decimal) (rows : Rows Decimal)
      → first (insert_ordered row rows) ≡ some x
      → (x ≡ row) ⊎ (first rows ≡ some x)
  unfolding insert_ordered
  first-insert_ordered row x [] h = ground arith
  first-insert_ordered row x (r ∷ rows) h = ground arith

  first-order_by_ordering :
      (x : DbTeamMember Decimal) (rows : Rows Decimal)
      → first (order_by_ordering rows) ≡ some x
      → Memᴰ x rows
  unfolding order_by_ordering
  first-order_by_ordering x [] h = absurd (ground arith)
  first-order_by_ordering x (row ∷ rows) h =
      elim (first-insert_ordered row x (order_by_ordering rows) h) [
        | inl same ↦ Memᴰ.head same
        | inr there ↦ Memᴰ.tail (first-order_by_ordering x rows there)
      ]

  first-map :
      (f : DbTeamMember Decimal → DbTeamMember Decimal) (m : DbTeamMember Decimal)
      (rows : Rows Decimal)
      → first (map f rows) ≡ some m
      → (x : DbTeamMember Decimal) × (first rows ≡ some x) × (m ≡ f x)
  first-map f m [] h = absurd (ground arith)
  first-map f m (x ∷ rows) h = (x, refl, ground arith)

  -- A member that `get_from_user_id` finds is the row of a member who has accepted.
  pub get_from_user_id-Memᴰ :
      (flags : Bitflags) (team user : ℕ) (m : DbTeamMember Decimal) (rows : Rows Decimal)
      → get_from_user_id flags team user rows ≡ some m
      → (row : DbTeamMember Decimal) × Memᴰ row rows
        × (row.team_id ≡ team)
        × (row.user_id ≡ user)
        × (row.accepted ≡ true)
        × (m ≡ read_row flags row)
  unfolding get_from_user_id get_from_user_id_many
  get_from_user_id-Memᴰ flags team user m rows h =
      let member = λ (r : DbTeamMember Decimal).
        any (λ t. r.team_id == t) (team ∷ []) && r.user_id == user && r.accepted in
      let (row, found, same) =
        first-map (read_row flags) m (order_by_ordering (filterb member rows)) h in
      let (there, holds) =
        Memᴰ-filterb member row rows (first-order_by_ordering row (filterb member rows) found) in
      (row, there, ground arith, ground arith, ground arith, same)

  -- A row that `get_from_user_id_pending` finds.
  pub get_from_user_id_pending-Memᴰ :
      (flags : Bitflags) (team user : ℕ) (m : DbTeamMember Decimal) (rows : Rows Decimal)
      → get_from_user_id_pending flags team user rows ≡ some m
      → (row : DbTeamMember Decimal) × (find (is_of team user) rows ≡ some row)
        × (m ≡ read_row flags row)
  unfolding get_from_user_id_pending
  get_from_user_id_pending-Memᴰ flags team user m rows h =
      elim (Option-cases (find (is_of team user) rows)) [
        | inl e ↦ absurd (ground arith)
        | inr (row, e) ↦ (row, e, ground arith)
      ]
