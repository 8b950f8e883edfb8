-- ===== src/Projects/Followers.antt =====
-- The number of followers of a project, in the rows of `mod_follows`.
use labrinth.Base.{
  ℕ, suc, ◌≤◌, ◌≡◌, inl, inr, refl, true, false, not, ◌&&◌, List, [], ◌∷◌, ◌++◌, any, filterb,
  count_if, arith, Bool-cases, if◌then◌else◌, ◌==◌, count_if-append, count_if-any-false,
  count_if-any-true, count_if-filterb, count_if_ext,
}
use labrinth.Base.Int.{ℤ, pos}
use labrinth.Projects.Follow.{increment, decrement, is_follow}

-- The rows of `mod_follows` that are of a project.
abbrev pub followers : ℕ → List (ℕ × ℕ) → ℕ
followers project follows = count_if (λ f. f.1 == project) follows

pub followers_more :
    (user project id : ℕ) (follows : List (ℕ × ℕ))
    → followers id (follows ++ (user, project) ∷ [])
      ≡ (if id == project then suc (followers id follows) else followers id follows)
followers_more user project id follows =
    ground (arith, count_if-append (λ (f : ℕ × ℕ). f.1 == id) follows ((user, project) ∷ []))

pub once_more :
    (user project u p : ℕ) (follows : List (ℕ × ℕ))
    → any (is_follow user project) follows ≡ false
    → count_if (is_follow u p) follows ≤ 1
    → count_if (is_follow u p) (follows ++ (user, project) ∷ []) ≤ 1
once_more user project u p follows new once = ground (
  arith,
  count_if-append (is_follow u p) follows ((user, project) ∷ []),
  count_if-any-false (is_follow user project) follows new,
)

both_follow :
    (user project id : ℕ) (f : ℕ × ℕ)
    → (id == project) ≡ true
    → ((f.1 == id) && is_follow user project f) ≡ is_follow user project f
both_follow user project id (a, b) h = ground arith

other_follow :
    (user project id : ℕ) (f : ℕ × ℕ)
    → (id == project) ≡ false
    → ((f.1 == id) && is_follow user project f) ≡ false
other_follow user project id (a, b) h = ground arith

count_if-const : (follows : List (ℕ × ℕ)) → count_if (λ (f : ℕ × ℕ). false) follows ≡ 0
count_if-const [] = refl
count_if-const (f ∷ follows) = count_if-const follows

pub followers_less :
    (user project id : ℕ) (follows : List (ℕ × ℕ))
    → any (is_follow user project) follows ≡ true
    → count_if (is_follow user project) follows ≤ 1
    → followers id follows ≡ (
        if id == project
        then suc (followers id (filterb (λ f. not (is_follow user project f)) follows))
        else followers id (filterb (λ f. not (is_follow user project f)) follows))
followers_less user project id follows there once =
    let q = λ (f : ℕ × ℕ). f.1 == id in
    let p = is_follow user project in
    let parts = count_if-filterb q p follows in
    elim (Bool-cases (id == project)) [
      | inl same ↦
          let both =
            count_if_ext (λ f. q f && p f) p follows (λ f. both_follow user project id f same) in
          ground (arith, parts, both, count_if-any-true p follows there)
      | inr other ↦
          let neither =
            count_if_ext (λ f. q f && p f) (λ f. false) follows
              (λ f. other_follow user project id f other) in
          ground (arith, parts, neither, count_if-const follows)
    ]

pub once_less :
    (user project u p : ℕ) (follows : List (ℕ × ℕ))
    → count_if (is_follow u p) follows ≤ 1
    → count_if (is_follow u p) (filterb (λ f. not (is_follow user project f)) follows) ≤ 1
once_less user project u p follows once =
    ground (arith, count_if-filterb (is_follow u p) (is_follow user project) follows)

pub increment-pos : (n : ℕ) (z : ℤ) → z ≡ pos n → increment z ≡ pos (suc n)
unfolding increment
increment-pos n z h = ground arith

pub decrement-pos : (n : ℕ) (z : ℤ) → z ≡ pos (suc n) → decrement z ≡ pos n
unfolding decrement
decrement-pos n z h = ground arith
