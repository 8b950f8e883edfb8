-- ===== src/Status/Visibility.antt =====
-- How the predicates on statuses fit together.
use labrinth.Base.{◌≡◌, refl, ◌↔◌, ◌⊎◌, true, false, arith}
use labrinth.Status.Project.{
  ProjectStatus, is_hidden, is_searchable, is_approved, can_be_requested, iterator,
}
use labrinth.Status.Version
use labrinth.Status.Version.{VersionStatus}
use mathlib.Core.List.{Memᴰ}

-- A searchable project is approved and not hidden.
pub searchable_visible :
    (s : ProjectStatus) → is_searchable s ≡ true → (is_approved s ≡ true) × (is_hidden s ≡ false)
unfolding is_searchable is_approved is_hidden
searchable_visible s h = ground arith

-- The statuses that may be requested are the approved ones and `Draft`.
pub can_be_requested_iff :
    (s : ProjectStatus)
    → (can_be_requested s ≡ true) ↔ ((is_approved s ≡ true) ⊎ (s ≡ ProjectStatus.draft))
unfolding can_be_requested is_approved
can_be_requested_iff s = ground arith

-- A listed version is not hidden, and may be requested.
pub listed_visible :
    (s : VersionStatus)
    → Version.is_listed s ≡ true
    → (Version.is_hidden s ≡ false) × (Version.can_be_requested s ≡ true)
unfolding Version.is_listed Version.is_hidden Version.can_be_requested
listed_visible s h = ground arith

-- `iterator` lists every status.
pub iterator_complete : (s : ProjectStatus) → Memᴰ s iterator
unfolding iterator
iterator_complete ProjectStatus.approved = Memᴰ.head refl
iterator_complete _ = search (Memᴰ.head, Memᴰ.tail) depth 12
