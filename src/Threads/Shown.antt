-- ===== src/Threads/Shown.antt =====
-- What a user who is no moderator sees of a thread.
use mathlib.Core.List.{Memᴰ}
use labrinth.Base.{
  ℕ, ◌≡◌, refl, true, false, not, ◌||◌, Option, none, some, List, [], ◌∷◌, map, filterb, find,
  if◌then◌else◌, arith, inl, inr, Option-cases, Bool-cases,
}
use labrinth.Users.{User}
use labrinth.Users.Role
use labrinth.Auth.Access.Retain.{filterb-Memᴰ}
use labrinth.Threads.{
  DbThread, DbThreadMessage, ThreadMessage, is_private, same_id, hides, shown_message, shown_thread,
}

module _ {A B : Type 0} where
  pub map-Memᴰ :
      (f : A → B) (y : B) (xs : List A) → Memᴰ y (map f xs) → (x : A) × Memᴰ x xs × (y ≡ f x)
  map-Memᴰ f y [] m = elim m [ ]
  map-Memᴰ f y (x ∷ xs) (Memᴰ.head e) = (x, Memᴰ.head refl, e)
  map-Memᴰ f y (x ∷ xs) (Memᴰ.tail m) =
      let (z, there, e) = map-Memᴰ f y xs m in (z, Memᴰ.tail there, e)

module _ {Decimal : Type 0} where
  find_nothing : (users : List (User Decimal)) → find (λ y. false) users ≡ none
  find_nothing [] = refl
  find_nothing (y ∷ users) = find_nothing users

  author_shown :
      (a : Option ℕ) (users : List (User Decimal)) (user author : User Decimal)
      → Role.is_mod user.role ≡ false
      → find
          (λ y. same_id (if hides user (find (λ y. same_id a y.id) users) then none else a) y.id)
          users
        ≡ some author
      → Role.is_mod author.role ≡ false
  author_shown a users user author plain h =
      elim (Option-cases (find (λ y. same_id a y.id) users)) [
        | inl e ↦ absurd (ground (arith, rw e at h))
        | inr (f, e) ↦ elim (Bool-cases (Role.is_mod f.role)) [
          | inl hidden ↦ absurd (ground (arith, find_nothing users, rw (e, hidden, plain) at h))
          | inr open' ↦ ground (arith, rw (e, open') at h)
        ]
      ]

  -- The message of a thread that a shown message is, and what it does not tell.
  pub record Redacted (users : List (User Decimal)) (data' : DbThread) (m : ThreadMessage)
      : Type 0 where
    pub message : DbThreadMessage
    pub there : Memᴰ message data'.messages
    pub same_body : m.body ≡ message.body
    pub is_public : is_private m.body ≡ false
    pub NoModerator :
        (author : User Decimal)
        → find (λ y. same_id m.author_id y.id) users ≡ some author
        → Role.is_mod author.role ≡ false

  -- To a user who is no moderator a thread shows only messages that are public, without their
  -- author where that is a moderator among the users, and only members who are no moderators.
  pub shown_thread-Redacted :
      (data' : DbThread) (users : List (User Decimal)) (user : User Decimal)
      → Role.is_mod user.role ≡ false
      → ((m : ThreadMessage)
          → Memᴰ m (shown_thread data' users user).messages
          → Redacted users data' m)
        × ((member : User Decimal)
            → Memᴰ member (shown_thread data' users user).members
            → Memᴰ member users × (Role.is_mod member.role ≡ false))
  unfolding shown_thread shown_message
  shown_thread-Redacted data' users user plain = (
    λ m there.
        let visible = λ (x : DbThreadMessage). not (is_private x.body) || Role.is_mod user.role in
        let (x, kept, same) =
          map-Memᴰ (shown_message users user) m (filterb visible data'.messages) there in
        let (source, holds) = (filterb-Memᴰ visible x data'.messages).0 kept in
        rw same (redact x source holds),
    λ member there.
        let (source, holds) =
          (filterb-Memᴰ (λ (x : User Decimal). not (Role.is_mod x.role) || Role.is_mod user.role)
              member users).0
            there in
        (source, ground arith),
  )
    where
      redact :
          (x : DbThreadMessage)
          → Memᴰ x data'.messages
          → (not (is_private x.body) || Role.is_mod user.role) ≡ true
          → Redacted users data' (shown_message users user x)
      redact x source holds = record {
        message = x;
        there = source;
        same_body = refl;
        is_public = ground arith;
        NoModerator = λ author found. author_shown x.author_id users user author plain found;
      }
