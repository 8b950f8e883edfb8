-- ===== src/Threads/Allowed.antt =====
-- The filter of threads keeps what the single check allows.
use mathlib.Core.List.{Memᴰ}
use labrinth.Base.{
  ℕ, ◌≡◌, ◌≢◌, ◌↔◌, ◌⊎◌, inl, inr, refl, ap, ◌∙◌, Bool, true, false, not, ◌||◌, Option, none, some,
  List, [], ◌∷◌, map, any, filterb, ◌==◌, ==_refl, Bool-cases, Option-cases, arith,
}
use labrinth.Users.{User}
use labrinth.Auth.Access.{retain_rows, on_project, joined_rows}
use labrinth.Auth.Access.Retain.{filterb-Memᴰ, retain_rows-Memᴰ}
use labrinth.Auth.Access.Exact.{any-joined_rows}
use labrinth.Threads.{DbThread}
use labrinth.Threads.Kind.{ThreadType}
use labrinth.Threads.Access.{
  Report, Tables, reported, is_type, ids_of, report_rows, is_authorized_thread, direct, typed,
  left_over, of_project, of_report, authorized_threads,
}

any-false : (rows : List ℕ) → any (λ row. false) rows ≡ false
any-false [] = refl
any-false (row ∷ rows) = any-false rows

-- What is looked up holds the id of a thread that is there.
any-ids_of :
    (f : DbThread → Option ℕ) (x : DbThread) (id : ℕ) (threads : List DbThread)
    → Memᴰ x threads
    → f x ≡ some id
    → any (λ k. id == k) (ids_of (map f threads)) ≡ true
any-ids_of f x id [] m e = elim m [ ]
any-ids_of f x id (y ∷ threads) (Memᴰ.head s) e = ground (arith, ==_refl id, ap f s)
any-ids_of f x id (y ∷ threads) (Memᴰ.tail m) e = ground (arith, any-ids_of f x id threads m e)

any-report_rows :
    (report : ℕ) (ids : List ℕ) (user : ℕ) (reports : List Report)
    → any (λ k. report == k) ids ≡ true
    → any (λ row. report == row) (report_rows ids user reports) ≡ reported report user reports
unfolding report_rows
any-report_rows report ids user [] h = refl
any-report_rows report ids user (r ∷ reports) h =
    ground (arith, any-report_rows report ids user reports h)

module _ {Decimal : Type 0} where
  abbrev by_project : DbThread → ℕ → Tables Decimal → Bool
  by_project x user t = elim x.project_id [
    | none ↦ false
    | some p ↦ on_project p user t.team_members t.mods
  ]

  abbrev by_report : DbThread → ℕ → Tables Decimal → Bool
  by_report x user t = elim x.report_id [ none ↦ false | some r ↦ reported r user t.reports ]

  -- The single check, put together from the three ways in.
  ways_in :
      (x : DbThread) (user : User Decimal) (t : Tables Decimal)
      → (x.project_id ≢ none → x.type_ ≡ ThreadType.project)
      → (x.report_id ≢ none → x.type_ ≡ ThreadType.report)
      → is_authorized_thread x user t
        ≡ (direct user x || by_project x user.id t || by_report x user.id t)
  unfolding is_authorized_thread
  ways_in x user t project_linked report_linked =
      by_type (Option-cases x.project_id) (Option-cases x.report_id)
    where
      by_type :
          (x.project_id ≡ none) ⊎ ((p : ℕ) × (x.project_id ≡ some p))
          → (x.report_id ≡ none) ⊎ ((r : ℕ) × (x.report_id ≡ some r))
          → is_authorized_thread x user t
            ≡ (direct user x || by_project x user.id t || by_report x user.id t)
      by_type (inl e) (inl f) = by_kind x.type_ refl
        where
          by_kind :
              (kind : ThreadType)
              → x.type_ ≡ kind
              → is_authorized_thread x user t
                ≡ (direct user x || by_project x user.id t || by_report x user.id t)
          by_kind ThreadType.report k = rw (k, e, f) (ground arith)
          by_kind ThreadType.project k = rw (k, e, f) (ground arith)
          by_kind ThreadType.direct_message k = rw (k, e, f) (ground arith)
      by_type (inl e) (inr (r, f)) =
          let kind : x.type_ ≡ ThreadType.report = report_linked (λ n. absurd (ground arith)) in
          rw (kind, e, f) (ground arith)
      by_type (inr (p, e)) (inl f) =
          let kind : x.type_ ≡ ThreadType.project = project_linked (λ n. absurd (ground arith)) in
          rw (kind, e, f) (ground arith)
      by_type (inr (p, e)) (inr (r, f)) =
          let kind : x.type_ ≡ ThreadType.project = project_linked (λ n. absurd (ground arith)) in
          let kind' : x.type_ ≡ ThreadType.report = report_linked (λ n. absurd (ground arith)) in
          absurd (ground arith)

  project_answer :
      (x : DbThread) (checked : List DbThread) (user : ℕ) (t : Tables Decimal)
      → Memᴰ x checked
      → (x.project_id ≢ none → x.type_ ≡ ThreadType.project)
      → any
          (λ row. of_project row x)
          (joined_rows
            (ids_of (map (λ x. x.project_id) (typed ThreadType.project checked)))
            user
            t.team_members
            t.mods)
        ≡ by_project x user t
  project_answer x checked user t m linked = elim (Option-cases x.project_id) [
    | inl e ↦ rw e (
        any-false (
          joined_rows (ids_of (map (λ x. x.project_id) (typed ThreadType.project checked))) user
            t.team_members t.mods))
    | inr (p, e) ↦
        let kind : x.type_ ≡ ThreadType.project = linked (λ n. absurd (ground arith)) in
        let there =
          (filterb-Memᴰ (λ y. is_type y.type_ ThreadType.project) x checked).1 (m, rw kind refl) in
        rw e (
          any-joined_rows p (ids_of (map (λ x. x.project_id) (typed ThreadType.project checked)))
            user t.team_members t.mods
            (any-ids_of (λ x. x.project_id) x p (typed ThreadType.project checked) there e))
  ]

  report_answer :
      (x : DbThread) (checked : List DbThread) (user : ℕ) (t : Tables Decimal)
      → Memᴰ x checked
      → (x.report_id ≢ none → x.type_ ≡ ThreadType.report)
      → any
          (λ row. of_report row x)
          (report_rows
            (ids_of (map (λ x. x.report_id) (typed ThreadType.report checked)))
            user
            t.reports)
        ≡ by_report x user t
  report_answer x checked user t m linked = elim (Option-cases x.report_id) [
    | inl e ↦ rw e (
        any-false (
          report_rows (ids_of (map (λ x. x.report_id) (typed ThreadType.report checked))) user
            t.reports))
    | inr (r, e) ↦
        let kind : x.type_ ≡ ThreadType.report = linked (λ n. absurd (ground arith)) in
        let there =
          (filterb-Memᴰ (λ y. is_type y.type_ ThreadType.report) x checked).1 (m, rw kind refl) in
        rw e (
          any-report_rows r (ids_of (map (λ x. x.report_id) (typed ThreadType.report checked))) user
            t.reports (any-ids_of (λ x. x.report_id) x r (typed ThreadType.report checked) there e))
  ]

  -- A thread whose project or report fits its type is kept by the filter exactly where it was given
  -- to the filter and `is_authorized_thread` lets the user see it.
  pub authorized_threads_iff :
      (threads : List DbThread) (user : User Decimal) (t : Tables Decimal) (x : DbThread)
      → (x.project_id ≢ none → x.type_ ≡ ThreadType.project)
      → (x.report_id ≢ none → x.type_ ≡ ThreadType.report)
      → Memᴰ x (authorized_threads threads user t)
        ↔ (Memᴰ x threads × (is_authorized_thread x user t ≡ true))
  unfolding authorized_threads is_authorized_thread
  authorized_threads_iff threads user t x project_linked report_linked =
      let returned = filterb (direct user) threads in
      let checked = filterb (λ x. not (direct user x)) threads in
      let project_rows =
        joined_rows (ids_of (map (λ x. x.project_id) (typed ThreadType.project checked))) user.id
          t.team_members t.mods in
      let returned' = retain_rows of_project project_rows checked returned in
      let checked' = left_over of_project project_rows checked in
      let found_reports =
        report_rows (ids_of (map (λ x. x.report_id) (typed ThreadType.report checked'))) user.id
          t.reports in
      let (p, q) = retain_rows-Memᴰ of_report found_reports x checked' returned' in
      let (p1, q1) = retain_rows-Memᴰ of_project project_rows x checked returned in
      let (a, b) = filterb-Memᴰ (direct user) x threads in
      let (c, d) = filterb-Memᴰ (λ x. not (direct user x)) x threads in
      let (e, f) = filterb-Memᴰ (λ x. not (any (λ row. of_project row x) project_rows)) x checked in
      let ways = ways_in x user t project_linked report_linked in
      (
        λ m. elim (p m) [
          | inl m' ↦ elim (p1 m') [
            | inl m'' ↦ let (there, h) = a m'' in (there, ground arith)
            | inr (m'', h) ↦
                let way = project_answer x checked user.id t m'' project_linked in
                ((c m'').0, ground arith)
          ]
          | inr (m', h) ↦
              let way = report_answer x checked' user.id t m' report_linked in
              ((c (e m').0).0, ground arith)
        ],
        λ (m, h). elim (Bool-cases (direct user x)) [
          | inl s ↦ q (inl (q1 (inl (b (m, s)))))
          | inr s ↦
              let there = d (m, ground arith) in
              let way = project_answer x checked user.id t there project_linked in
              elim (Bool-cases (by_project x user.id t)) [
                | inl k ↦ q (inl (q1 (inr (there, way ∙ k))))
                | inr k ↦
                    let there' = f (there, ground arith) in
                    let way' = report_answer x checked' user.id t there' report_linked in
                    q (inr (there', way' ∙ ground arith))
              ]
        ],
      )
