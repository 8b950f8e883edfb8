-- ===== src/Queue/Download.antt =====
-- `DownloadQueue` (src/queue/download.rs), with the two tables that its `index` writes.
-- A lock is held for one operation at a time, so each operation is one step on the queue.
pub mod Counts
use labrinth.Base.{
  ℕ, ◌+◌, ◌-◌, ◌^◌, Bool, Option, none, some, List, [], ◌∷◌, ◌++◌, ltb, ◌==◌, if◌then◌else◌, Result,
  ok, err,
}

-- The columns `id` and `downloads` of a row of `versions` or `mods`.
pub record Row : Type 0 where
  pub id : ℕ
  pub downloads : ℕ

pub record Tables : Type 0 where
  pub versions : List Row
  pub mods : List Row

pub record DownloadQueue : Type 0 where
  -- pairs of a project and a version
  pub queue : List (ℕ × ℕ)

pub data DatabaseError : Type 0 where
  out_of_range : DatabaseError

abbrev pub max_downloads : ℕ
max_downloads = 2 ^ 31 - 1

abbrev pub new : DownloadQueue
new = record { queue = [] }

pub add : ℕ → ℕ → DownloadQueue → DownloadQueue
add project_id version_id q = record { queue = q.queue ++ (project_id, version_id) ∷ [] }

-- The queue is swapped for an empty one.
pub take : DownloadQueue → List (ℕ × ℕ) × DownloadQueue
take q = (q.queue, record { queue = [] })

abbrev increment : Row → Option (List Row) → Option (List Row)
increment row none = none
increment row (some rows) =
    if ltb row.downloads max_downloads
    then some (record row { downloads = row.downloads + 1 } ∷ rows)
    else none

abbrev keep : Row → Option (List Row) → Option (List Row)
keep row none = none
keep row (some rows) = some (row ∷ rows)

-- `SET downloads = downloads + 1 WHERE (id = $1)`; `none` where the column, an `integer`, is full.
pub bump : ℕ → List Row → Option (List Row)
bump id [] = some []
bump id (row ∷ rows) =
    let rest = bump id rows in if row.id == id then increment row rest else keep row rest

-- The loop of `index`: both updates for each download.
pub bump_all : List (ℕ × ℕ) → Tables → Option Tables
bump_all [] t = some t
bump_all ((project_id, version_id) ∷ queue) t = elim (bump version_id t.versions) [
  | none ↦ none
  | some versions ↦ elim (bump project_id t.mods) [
    | none ↦ none
    | some mods ↦ bump_all queue (record { versions = versions; mods = mods })
  ]
]

-- The transaction is dropped on an error: the tables stay, and the queue is empty all the same.
unfoldable pub index :
    DownloadQueue → Tables → Result DatabaseError (Unit {0}) × DownloadQueue × Tables
unfolding take bump_all bump
index q t =
    let (queue, q') = take q in
    elim (bump_all queue t) [ none ↦ (err out_of_range, q', t) | some t' ↦ (ok tt, q', t') ]
