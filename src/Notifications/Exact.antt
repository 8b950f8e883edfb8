-- ===== src/Notifications/Exact.antt =====
-- Which notifications a route changes.
use mathlib.Core.List.{Memᴰ}
use labrinth.Base.{
  ℕ, ◌≤◌, ◌≡◌, inl, inr, refl, sym, ap, ◌∙◌, true, not, ◌&&◌, List, [], ◌∷◌, map, any, filterb,
  count_if, ◌==◌, if◌then◌else◌, ok, arith, All-of_Memᴰ, Bool-cases, one_row, any-Memᴰ, Memᴰ-any,
  filterb_ext, map_ext,
}
use labrinth.Users.{User}
use labrinth.Api.{no_content}
use labrinth.Auth.Access.Retain.{filterb-Memᴰ}
use labrinth.Notifications.{Notification, is_one, get_many, read_many, remove_many}
use labrinth.Notifications.Routes.{
  is_allowed, allowed_ids, notifications_read, notifications_delete,
}

-- No two notifications have the same id.
abbrev pub UniqueIds : List Notification → Type 0
UniqueIds rows = (id : ℕ) → count_if (λ (n : Notification). n.id == id) rows ≤ 1

module _ {Decimal : Type 0} where
  -- The ids of notifications that were asked for are those of rows that are allowed.
  any-allowed_ids :
      (user : User Decimal) (found : List Notification) (n : Notification)
      → is_one (allowed_ids user found) n
        ≡ any (λ (m : Notification). n.id == m.id) (filterb (is_allowed user) found)
  any-allowed_ids user found n = go (filterb (is_allowed user) found)
    where
      go :
          (ms : List Notification)
          → is_one (map (λ (m : Notification). m.id) ms) n
            ≡ any (λ (m : Notification). n.id == m.id) ms
      go [] = refl
      go (m ∷ ms) = ground (arith, go ms)

  is_one-allowed :
      (user : User Decimal) (ids : List ℕ) (rows : List Notification) (n : Notification)
      → UniqueIds rows
      → Memᴰ n rows
      → is_one (allowed_ids user (get_many ids rows)) n ≡ (is_one ids n && is_allowed user n)
  unfolding get_many
  is_one-allowed user ids rows n unique there =
      any-allowed_ids user (get_many ids rows) n
      ∙ elim (Bool-cases (is_one ids n && is_allowed user n)) [
        | inl e ↦
            let found = (filterb-Memᴰ (is_one ids) n rows).1 (there, ground arith) in
            let chosen =
              (filterb-Memᴰ (is_allowed user) n (filterb (is_one ids) rows)).1
                (found, ground arith) in
            any-Memᴰ (λ (m : Notification). n.id == m.id) n _ chosen (ground arith) ∙ sym e
        | inr e ↦
            elim (Bool-cases (
              any (λ (m : Notification). n.id == m.id)
                (filterb (is_allowed user) (filterb (is_one ids) rows)))) [
                  | inr none_of ↦ none_of ∙ sym e
                  | inl one ↦
                      let (m, chosen, same) =
                        Memᴰ-any (λ (m : Notification). n.id == m.id)
                          (filterb (is_allowed user) (filterb (is_one ids) rows)) one in
                      let (found, allowed) =
                        (filterb-Memᴰ (is_allowed user) m (filterb (is_one ids) rows)).0 chosen in
                      let (row, asked) = (filterb-Memᴰ (is_one ids) m rows).0 found in
                      let eq : m ≡ n =
                        one_row (λ (x : Notification). x.id == n.id) m n rows (unique n.id) row
                          (ground arith) there (ground arith) in
                      let asked_n : is_one ids n ≡ true = rw eq at asked in
                      let allowed_n : is_allowed user n ≡ true = rw eq at allowed in
                      absurd (ground arith)
                ]
      ]

  -- Where no two notifications have the same id, `notifications_read` marks and
  -- `notifications_delete` removes exactly those of the given ids that are the user's own, or any
  -- of the given ids for an administrator; all others stay as they are, in their order.
  pub notifications_exact :
      (scopes : ℕ) (user : User Decimal) (ids : List ℕ) (rows : List Notification)
      → UniqueIds rows
      → (notifications_read (ok (scopes, user)) ids rows
          ≡ ok (
            no_content,
            map
                (λ n. if is_one ids n && is_allowed user n then record n { read = true } else n)
                rows,
          ))
        × (notifications_delete (ok (scopes, user)) ids rows
            ≡ ok (no_content, filterb (λ n. not (is_one ids n && is_allowed user n)) rows))
  unfolding notifications_read notifications_delete read_many remove_many
  notifications_exact scopes user ids rows unique = (
    ap (λ (r : List Notification). ok (no_content, r))
        (map_ext _ _ rows (
          All-of_Memᴰ _ rows (λ n there.
            ap (λ b. if b then record n { read = true } else n)
              (is_one-allowed user ids rows n unique there)))),
    ap (λ (r : List Notification). ok (no_content, r))
        (filterb_ext _ _ rows
          (All-of_Memᴰ _ rows (λ n there. ap not (is_one-allowed user ids rows n unique there)))),
  )
