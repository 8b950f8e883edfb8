-- ===== src/Auth/Flows/Runs.antt =====
-- What a call that succeeded has passed, for the calls of src/auth/flows.rs.
use labrinth.Base.{
  ℕ, String, ◌≡◌, refl, Bool, true, false, not, Option, none, some, List, [], ◌∷◌, find, filterb,
  str_eq, Result, ok, err, arith, Bool-cases, inl, inr, eq_refl, ◌<◌,
}
use labrinth.Api.{AuthenticationError, ApiError}
use labrinth.Auth.Flows.{
  as_api, Flow, FlowRow, Outside, Action, resume, lift, some_or, check, is_live, get, insert,
  remove,
}

module _ {E A B : Type 0} where
  pub resume-ok :
      (r : Result E A × Outside) (f : A → Action E B) {b : B} {o' : Outside}
      → resume r f ≡ (ok b, o')
      → (a : A) × (o : Outside) × (r ≡ (ok a, o)) × (f a o ≡ (ok b, o'))
  resume-ok (ok a, o) f h = (a, o, refl, h)
  resume-ok (err e, o) f h = absurd (ground arith)

  pub lift-ok :
      (r : Result E A) (f : A → Action E B) {o : Outside} {b : B} {o' : Outside}
      → resume (lift r o) f ≡ (ok b, o')
      → (a : A) × (r ≡ ok a) × (f a o ≡ (ok b, o'))
  lift-ok (ok a) f h = (a, refl, h)
  lift-ok (err e) f h = absurd (ground arith)

  pub some_or-ok :
      (m : Option A) (e : E) (f : A → Action E B) {o : Outside} {b : B} {o' : Outside}
      → resume (some_or m e o) f ≡ (ok b, o')
      → (a : A) × (m ≡ some a) × (f a o ≡ (ok b, o'))
  some_or-ok none e f h = absurd (ground arith)
  some_or-ok (some a) e f h = (a, refl, h)

pub as_api-ok :
    {A B : Type 0} (r : Result AuthenticationError A) (f : A → Action ApiError B) {o : Outside}
    {b : B} {o' : Outside}
    → resume (as_api (lift r) o) f ≡ (ok b, o')
    → (a : A) × (r ≡ ok a) × (f a o ≡ (ok b, o'))
as_api-ok (ok a) f h = (a, refl, h)
as_api-ok (err e) f h = absurd (ground arith)

-- The tables of an answer.
pub tables-ok :
    {E A T : Type 0} (a b : A) (t t' : T) {o o' : Outside}
    → ◌≡◌ {A = Result E (A × T) × Outside} (ok (a, t), o) (ok (b, t'), o')
    → t ≡ t'
tables-ok a b t t' h = ground arith

pub check-ok :
    {E B : Type 0} (t : Bool) (e : E) (f : Unit {0} → Action E B) {o : Outside} {b : B}
    {o' : Outside}
    → resume (check t e o) f ≡ (ok b, o')
    → (t ≡ true) × (f tt o ≡ (ok b, o'))
check-ok true e f h = (refl, h)
check-ok false e f h = absurd (ground arith)

find_removed :
    (text : String) (now : ℕ) (flows : List FlowRow)
    → find (is_live text now) (filterb (λ f. not (str_eq f.id text)) flows) ≡ none
find_removed text now [] = refl
find_removed text now (f ∷ flows) = elim (Bool-cases (str_eq f.id text)) [
  | inl e ↦ ground (arith, find_removed text now flows)
  | inr e ↦ ground (arith, find_removed text now flows)
]

-- A flow that was removed is not found again.
pub get-remove :
    (E : Type 0) (text : String) (now : ℕ) (o : Outside)
    → get text now (remove {E = E} text o).1.flows ≡ none
unfolding get remove
get-remove E text now o = let e = find_removed text now o.flows in rw e refl

-- A flow that was put is found until it expires.
pub get-insert :
    (E : Type 0) (flow : Flow) (expires : ℕ) (text : String) (now : ℕ) (o : Outside)
    → 0 < expires
    → get text now (insert {E = E} flow expires text now o).1.flows ≡ some flow
unfolding get insert
get-insert E flow expires text now o pos = ground (arith, eq_refl text)
