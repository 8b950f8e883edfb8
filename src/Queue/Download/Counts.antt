-- ===== src/Queue/Download/Counts.antt =====
-- `index` adds to each row what the queue holds for it.

use labrinth.Base.{
  ℕ, ◌+◌, ◌≤◌, ◌≡◌, refl, Option, none, some, List, [], ◌∷◌, ◌==◌, if◌then◌else◌, arith, length,
  All, ok, ◌≢◌, suc, Bool-cases, count_if, Option-cases, inl, inr,
}
use labrinth.Queue.Download.{Row, Tables, DownloadQueue, max_downloads, bump, bump_all, index}

-- The counter of a row.
pub downloads_of : ℕ → List Row → Option ℕ
downloads_of id [] = none
downloads_of id (row ∷ rows) = if row.id == id then some row.downloads else downloads_of id rows

abbrev pub plus : ℕ → Option ℕ → Option ℕ
plus n none = none
plus n (some m) = some (m + n)

downloads_of-bump :
    (k id : ℕ) (rows rows' : List Row)
    → bump k rows ≡ some rows'
    → downloads_of id rows' ≡ plus (if k == id then 1 else 0) (downloads_of id rows)
unfolding bump downloads_of
downloads_of-bump k id [] rows' h = ground arith
downloads_of-bump k id (row ∷ rows) rows' h = elim (Option-cases (bump k rows)) [
  | inl e ↦ absurd (ground arith)
  | inr (rest, e) ↦ ground (arith, downloads_of-bump k id rows rest e)
]

bump-fits :
    (k n : ℕ) (rows : List Row)
    → All (λ row. row.downloads + suc n ≤ max_downloads) rows
    → (rows' : List Row) × (bump k rows ≡ some rows')
      × All (λ row. row.downloads + n ≤ max_downloads) rows'
unfolding bump
bump-fits k n [] fits = ([], refl, tt)
bump-fits k n (row ∷ rows) (fit, fits) =
    let (rest, run, small) = bump-fits k n rows fits in
    elim (Bool-cases (row.id == k)) [
      | inl hit ↦
          (record row { downloads = row.downloads + 1 } ∷ rest, ground arith, (omega arith, small))
      | inr miss ↦ (row ∷ rest, ground arith, (omega arith, small))
    ]

-- The downloads in the queue of a version, and of a project.
abbrev pub of_version : ℕ → List (ℕ × ℕ) → ℕ
of_version id queue = count_if (λ d. d.1 == id) queue

abbrev pub of_project : ℕ → List (ℕ × ℕ) → ℕ
of_project id queue = count_if (λ d. d.0 == id) queue

bump_all-counts :
    (id : ℕ) (queue : List (ℕ × ℕ)) (t t' : Tables)
    → bump_all queue t ≡ some t'
    → (downloads_of id t'.versions ≡ plus (of_version id queue) (downloads_of id t.versions))
      × (downloads_of id t'.mods ≡ plus (of_project id queue) (downloads_of id t.mods))
unfolding bump_all
bump_all-counts id [] t t' h = ground arith
bump_all-counts id ((p, v) ∷ queue) t t' h = elim (Option-cases (bump v t.versions)) [
  | inl e ↦ absurd (ground arith)
  | inr (versions, e) ↦ elim (Option-cases (bump p t.mods)) [
    | inl f ↦ absurd (ground arith)
    | inr (mods, f) ↦ ground (
      arith,
      downloads_of-bump v id t.versions versions e,
      downloads_of-bump p id t.mods mods f,
      bump_all-counts id queue (record { versions = versions; mods = mods }) t',
    )
  ]
]

bump_all-fits :
    (queue : List (ℕ × ℕ)) (t : Tables)
    → All (λ row. row.downloads + length queue ≤ max_downloads) t.versions
    → All (λ row. row.downloads + length queue ≤ max_downloads) t.mods
    → (t' : Tables) × (bump_all queue t ≡ some t')
unfolding bump_all
bump_all-fits [] t fv fm = (t, refl)
bump_all-fits ((p, v) ∷ queue) t fv fm =
    let (versions, e, fv') = bump-fits v (length queue) t.versions fv in
    let (mods, f, fm') = bump-fits p (length queue) t.mods fm in
    let (t', run) = bump_all-fits queue (record { versions = versions; mods = mods }) fv' fm' in
    (t', ground arith)

-- If no counter is so large that the queue could overflow it, `index` succeeds and leaves the queue
-- empty, and the counter of every version and of every project has grown by exactly the number of
-- its downloads in the queue.
pub index-counts :
    (q : DownloadQueue) (t : Tables) (id : ℕ)
    → All (λ row. row.downloads + length q.queue ≤ max_downloads) t.versions
    → All (λ row. row.downloads + length q.queue ≤ max_downloads) t.mods
    → (t' : Tables) × (index q t ≡ (ok tt, record { queue = [] }, t'))
      × (downloads_of id t'.versions ≡ plus (of_version id q.queue) (downloads_of id t.versions))
      × (downloads_of id t'.mods ≡ plus (of_project id q.queue) (downloads_of id t.mods))
unfolding index
index-counts q t id fv fm =
    let (t', run) = bump_all-fits q.queue t fv fm in
    let (versions, mods) = bump_all-counts id q.queue t t' run in (t', ground arith, versions, mods)

-- Where `index` fails, the tables are as they were and the downloads of the queue are lost.
pub index_failed :
    (q : DownloadQueue) (t : Tables)
    → (index q t).0 ≢ ok tt
    → (index q t).1 ≡ record { queue = [] } × ((index q t).2 ≡ t)
unfolding index
index_failed q t h = ground arith
