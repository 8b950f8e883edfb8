-- ===== src/Base/Rows.antt =====
-- Rows of a table: the row with an id, and filters and changes of rows.
use Prim.Native.Nat.{◌≤◌}
use mathlib.Core.Path.{◌≡◌, refl, sym, ap, ◌∙◌}
use mathlib.Core.Logic.{inl, inr}
use mathlib.Core.Bool.{Bool, true, false}
use mathlib.Core.List.{List, [], ◌∷◌, ◌++◌, map, Memᴰ}
use native.Mathlib.Omega.{arith}
use labrinth.Base.Tests.{Bool-cases}
use labrinth.Base.Lists.{All, any, filterb, count_if}

module _ {ℓ} {A : Type ℓ} where
  pub count_if-Memᴰ :
      (p : A → Bool) (x : A) (rows : List A) → Memᴰ x rows → p x ≡ true → 1 ≤ count_if p rows
  count_if-Memᴰ p x [] m h = elim m [ ]
  count_if-Memᴰ p x (r ∷ rows) (Memᴰ.head e) h = let g : p r ≡ true = rw (sym e) h in ground arith
  count_if-Memᴰ p x (r ∷ rows) (Memᴰ.tail m) h = ground (arith, count_if-Memᴰ p x rows m h)

  pub one_row :
      (p : A → Bool) (x y : A) (rows : List A)
      → count_if p rows ≤ 1
      → Memᴰ x rows
      → p x ≡ true
      → Memᴰ y rows
      → p y ≡ true
      → x ≡ y
  one_row p x y [] once m h n k = elim m [ ]
  one_row p x y (r ∷ rows) once (Memᴰ.head e) h (Memᴰ.head f) k = e ∙ sym f
  one_row p x y (r ∷ rows) once (Memᴰ.head e) h (Memᴰ.tail n) k =
      let g : p r ≡ true = rw (sym e) h in absurd (ground (arith, count_if-Memᴰ p y rows n k))
  one_row p x y (r ∷ rows) once (Memᴰ.tail m) h (Memᴰ.head f) k =
      let g : p r ≡ true = rw (sym f) k in absurd (ground (arith, count_if-Memᴰ p x rows m h))
  one_row p x y (r ∷ rows) once (Memᴰ.tail m) h (Memᴰ.tail n) k =
      one_row p x y rows (ground arith) m h n k

  pub filterb-map :
      (q : A → Bool) (f : A → A) (rows : List A)
      → All (λ x. (q x ≡ true → f x ≡ x) × (q (f x) ≡ q x)) rows
      → filterb q (map f rows) ≡ filterb q rows
  filterb-map q f [] h = refl
  filterb-map q f (r ∷ rows) ((same, keeps), h) = elim (Bool-cases (q r)) [
    | inl e ↦ rw (same e, e) (ap (λ rest. r ∷ rest) (filterb-map q f rows h))
    | inr e ↦ rw (keeps, e) (filterb-map q f rows h)
  ]

  pub filterb-filterb :
      (q p : A → Bool) (rows : List A)
      → All (λ x. q x ≡ true → p x ≡ true) rows
      → filterb q (filterb p rows) ≡ filterb q rows
  filterb-filterb q p [] h = refl
  filterb-filterb q p (r ∷ rows) (h, rest) = ground (arith, h, filterb-filterb q p rows rest)

  pub filterb-append :
      (q : A → Bool) (rows : List A) (x : A)
      → q x ≡ false
      → filterb q (rows ++ x ∷ []) ≡ filterb q rows
  filterb-append q [] x h = ground arith
  filterb-append q (r ∷ rows) x h = ground (arith, filterb-append q rows x h)

  pub count_if-map :
      (p : A → Bool) (f : A → A) (rows : List A)
      → ((x : A) → p (f x) ≡ p x)
      → count_if p (map f rows) ≡ count_if p rows
  count_if-map p f [] h = refl
  count_if-map p f (r ∷ rows) h = ground (arith, h r, count_if-map p f rows h)

  pub any-Memᴰ : (p : A → Bool) (x : A) (xs : List A) → Memᴰ x xs → p x ≡ true → any p xs ≡ true
  any-Memᴰ p x [] m h = elim m [ ]
  any-Memᴰ p x (r ∷ xs) (Memᴰ.head e) h = let g : p r ≡ true = rw (sym e) h in ground arith
  any-Memᴰ p x (r ∷ xs) (Memᴰ.tail m) h = ground (arith, any-Memᴰ p x xs m h)

  pub Memᴰ-any : (p : A → Bool) (xs : List A) → any p xs ≡ true → (x : A) × Memᴰ x xs × (p x ≡ true)
  Memᴰ-any p [] h = absurd (ground arith)
  Memᴰ-any p (r ∷ xs) h = elim (Bool-cases (p r)) [
    | inl e ↦ (r, Memᴰ.head refl, e)
    | inr e ↦ let (x, m, k) = Memᴰ-any p xs (ground arith) in (x, Memᴰ.tail m, k)
  ]

  pub filterb_ext :
      (p q : A → Bool) (xs : List A) → All (λ x. p x ≡ q x) xs → filterb p xs ≡ filterb q xs
  filterb_ext p q [] h = refl
  filterb_ext p q (x ∷ xs) (h, rest) = ground (arith, h, filterb_ext p q xs rest)

  pub map_ext : (f g : A → A) (xs : List A) → All (λ x. f x ≡ g x) xs → map f xs ≡ map g xs
  map_ext f g [] h = refl
  map_ext f g (x ∷ xs) (h, rest) =
      ap (λ y. y ∷ map f xs) h ∙ ap (λ ys. g x ∷ ys) (map_ext f g xs rest)
