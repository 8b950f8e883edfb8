-- ===== src/Auth/Access/Retain.antt =====
-- What the two loops of a filter return.
use mathlib.Core.List.{Memᴰ}
use labrinth.Base.{
  ℕ, ◌≡◌, ap, ◌↔◌, ◌⊎◌, inl, inr, refl, sym, ◌∙◌, Bool, true, false, not, ◌||◌, List, [], ◌∷◌, ◌++◌,
  map, any, filterb, ◌==◌, ==_refl, if◌then◌else◌, Bool-cases, arith,
}
use labrinth.Queue.Auth.{is_empty}
use labrinth.Auth.Access.{split, retain_rows}

module _ {A : Type 0} where
  mem_cases : {x y : A} {xs : List A} → Memᴰ x (y ∷ xs) → (x ≡ y) ⊎ Memᴰ x xs
  mem_cases (Memᴰ.head e) = inl e
  mem_cases (Memᴰ.tail m) = inr m

  Memᴰ-append : (x : A) (xs ys : List A) → Memᴰ x (xs ++ ys) ↔ (Memᴰ x xs ⊎ Memᴰ x ys)
  Memᴰ-append x xs ys = (apart xs, λ h. elim h [ inl m ↦ left xs m | inr m ↦ right xs m ])
    where
      apart : (xs : List A) → Memᴰ x (xs ++ ys) → Memᴰ x xs ⊎ Memᴰ x ys
      apart [] m = inr m
      apart (y ∷ xs) (Memᴰ.head e) = inl (Memᴰ.head e)
      apart (y ∷ xs) (Memᴰ.tail m) = elim (apart xs m) [
        | inl there ↦ inl (Memᴰ.tail there)
        | inr there ↦ inr there
      ]

      left : (xs : List A) → Memᴰ x xs → Memᴰ x (xs ++ ys)
      left [] m = elim m [ ]
      left (y ∷ xs) (Memᴰ.head e) = Memᴰ.head e
      left (y ∷ xs) (Memᴰ.tail m) = Memᴰ.tail (left xs m)

      right : (xs : List A) → Memᴰ x ys → Memᴰ x (xs ++ ys)
      right [] m = m
      right (y ∷ xs) m = Memᴰ.tail (right xs m)

  pub filterb-Memᴰ :
      (p : A → Bool) (x : A) (xs : List A) → Memᴰ x (filterb p xs) ↔ (Memᴰ x xs × (p x ≡ true))
  filterb-Memᴰ p x [] = (λ m. elim m [ ], λ h. elim h.0 [ ])
  filterb-Memᴰ p x (y ∷ xs) = elim (Bool-cases (p y)) [
    | inl e ↦ rw e (
      λ m. elim (mem_cases m) [
        | inl same ↦ (Memᴰ.head same, rw same e)
        | inr m' ↦ let (there, h) = (filterb-Memᴰ p x xs).0 m' in (Memᴰ.tail there, h)
      ],
      λ (m, h). elim (mem_cases m) [
        | inl same ↦ Memᴰ.head same
        | inr m' ↦ Memᴰ.tail ((filterb-Memᴰ p x xs).1 (m', h))
      ],
    )
    | inr e ↦ rw e (
      λ m. let (there, h) = (filterb-Memᴰ p x xs).0 m in (Memᴰ.tail there, h),
      λ (m, h). elim (mem_cases m) [
        | inl same ↦ absurd (ground arith)
        | inr m' ↦ (filterb-Memᴰ p x xs).1 (m', h)
      ],
    )
  ]

  pub split-eq :
      (shown : A → Bool) (xs : List A)
      → split shown true xs ≡ (filterb shown xs, filterb (λ x. not (shown x)) xs)
  unfolding split
  split-eq shown [] = refl
  split-eq shown (x ∷ xs) = ground (arith, split-eq shown xs)

  pub split_public : (shown : A → Bool) (xs : List A) → (split shown false xs).0 ≡ filterb shown xs
  unfolding split
  split_public shown [] = refl
  split_public shown (x ∷ xs) = ground (arith, split_public shown xs)

  -- The filter for a visitor without a user.
  pub public_iff :
      (shown : A → Bool) (x : A) (xs : List A)
      → Memᴰ x (split (λ y. shown y || false) false xs).0 ↔ (Memᴰ x xs × (shown x ≡ true))
  public_iff shown x xs =
      let (p, q) = filterb-Memᴰ (λ y. shown y || false) x xs in
      rw (split_public (λ y. shown y || false) xs)
        (λ m. ((p m).0, ground (arith, (p m).1)), λ (m, h). q (m, ground arith))

  pub any-append : (p : A → Bool) (xs ys : List A) → any p (xs ++ ys) ≡ (any p xs || any p ys)
  any-append p [] ys = refl
  any-append p (x ∷ xs) ys = ground (arith, any-append p xs ys)

  pub any-mapped :
      (f : A → ℕ) (x : A) (xs : List A) → Memᴰ x xs → any (λ k. f x == k) (map f xs) ≡ true
  any-mapped f x [] m = elim m [ ]
  any-mapped f x (y ∷ xs) (Memᴰ.head e) = rw e (ground (arith, ==_refl (f y)))
  any-mapped f x (y ∷ xs) (Memᴰ.tail m) = ground (arith, any-mapped f x xs m)

module _ {A R : Type 0} (hit : R → A → Bool) where
  pub retain_rows-Memᴰ :
      (rows : List R) (x : A) (checked returned : List A)
      → Memᴰ x (retain_rows hit rows checked returned)
        ↔ (Memᴰ x returned ⊎ (Memᴰ x checked × (any (λ row. hit row x) rows ≡ true)))
  unfolding retain_rows
  retain_rows-Memᴰ [] x checked returned =
      (inl, λ h. elim h [ inl m ↦ m | inr (m, e) ↦ absurd (ground arith) ])
  retain_rows-Memᴰ (row ∷ rows) x checked returned =
      let (p, q) =
        retain_rows-Memᴰ rows x (filterb (λ x. not (hit row x)) checked)
          (returned ++ filterb (hit row) checked) in
      let (a, b) = Memᴰ-append x returned (filterb (hit row) checked) in
      let (c, d) = filterb-Memᴰ (hit row) x checked in
      let (e, f) = filterb-Memᴰ (λ x. not (hit row x)) x checked in
      (
        λ m. elim (p m) [
          | inl m' ↦ elim (a m') [
            | inl old ↦ inl old
            | inr new ↦ inr ((c new).0, ground (arith, (c new).1))
          ]
          | inr (m', h) ↦ inr ((e m').0, ground arith)
        ],
        λ h. elim h [
          | inl old ↦ q (inl (b (inl old)))
          | inr (m, found) ↦ elim (Bool-cases (hit row x)) [
            | inl now ↦ q (inl (b (inr (d (m, now)))))
            | inr later ↦ q (inr (f (m, ground arith), ground arith))
          ]
        ],
      )

  append_nothing : (xs : List A) → xs ++ [] ≡ xs
  append_nothing [] = refl
  append_nothing (x ∷ xs) = ap (λ ys. x ∷ ys) (append_nothing xs)

  pub retain_rows_none :
      (rows : List R) (returned : List A) → retain_rows hit rows [] returned ≡ returned
  unfolding retain_rows
  retain_rows_none [] returned = refl
  retain_rows_none (row ∷ rows) returned =
      retain_rows_none rows (returned ++ []) ∙ append_nothing returned

  skip_empty :
      (rows : List R) (checked returned : List A)
      → (if is_empty checked then returned else retain_rows hit rows checked returned)
        ≡ retain_rows hit rows checked returned
  skip_empty rows [] returned = sym (retain_rows_none rows returned)
  skip_empty rows (x ∷ checked) returned = refl

  -- The filter as a whole, for a user who is logged in: the answer of the query decides for what
  -- is looked up.
  pub filter_iff :
      (shown : A → Bool) (xs : List A) (rows : List R) (x : A) (allowed : Bool)
      → (Memᴰ x (filterb (λ x. not (shown x)) xs) → any (λ row. hit row x) rows ≡ allowed)
      → Memᴰ x (
          if is_empty (split shown true xs).1
          then (split shown true xs).0
          else retain_rows hit rows (split shown true xs).1 (split shown true xs).0)
        ↔ (Memᴰ x xs × ((shown x || allowed) ≡ true))
  filter_iff shown xs rows x allowed decides =
      let (p, q) = retain_rows-Memᴰ rows x (filterb (λ x. not (shown x)) xs) (filterb shown xs) in
      let (c, d) = filterb-Memᴰ shown x xs in
      let (e, f) = filterb-Memᴰ (λ x. not (shown x)) x xs in
      rw (split-eq shown xs, skip_empty rows (filterb (λ x. not (shown x)) xs) (filterb shown xs))
        (
          λ m. elim (p m) [
            | inl m' ↦ ((c m').0, ground (arith, (c m').1))
            | inr (m', h) ↦ ((e m').0, ground (arith, decides m'))
          ],
          λ (m, h). elim (Bool-cases (shown x)) [
            | inl s ↦ q (inl (d (m, s)))
            | inr s ↦
                let there = f (m, ground arith) in q (inr (there, ground (arith, decides there)))
          ],
        )
