-- ===== src/Projects/Counted.antt =====
-- The counter of the followers of a project, against the rows of `mod_follows`.
use labrinth.Base.{
  ℕ, ◌≤◌, String, ◌≡◌, inl, inr, refl, sym, ap, ◌∙◌, Bool, true, false, List, [], ◌∷◌, ◌++◌,
  count_if, ok, arith, Bool-cases, if◌then◌else◌, ◌==◌, All-map, All-Memᴰ, All,
}
use labrinth.Base.Int.{ℤ, pos}
use labrinth.Flags.{Bitflags}
use labrinth.Api.{no_content}
use labrinth.Teams.Routes.{Auth}
use labrinth.Projects.{ModRow, Env}
use labrinth.Projects.Edit.{Db}
use labrinth.Projects.Edited.{Edited, project_edit-Edited}
use labrinth.Projects.Follow.{increment, decrement, is_follow, project_follow, project_unfollow}
use labrinth.Projects.Followers.{
  followers, followers_more, followers_less, once_more, once_less, increment-pos, decrement-pos,
}
use labrinth.Projects.Follows.{project_follow_cases, project_unfollow_cases}
use labrinth.Projects.Schedule.{
  SchedulingData, schedule_row, project_schedule, release_row, release,
}
use labrinth.Projects.Found.{get_project-Memᴰ, project_schedule_cases}
use labrinth.Projects.Steps.{Step, edit, schedule, follow, unfollow, release_due, Reach, here, next}

abbrev pub Counts : List (ℕ × ℕ) → ModRow → Type 0
Counts follows m = m.follows ≡ pos (followers m.id follows)

-- Nobody follows a project twice, and each counter is the number of followers.
pub record Counted {Decimal : Type 0} (db : Db Decimal) : Type 0 where
  pub once : (user project : ℕ) → count_if (is_follow user project) db.follows ≤ 1
  pub counts : All (Counts db.follows) db.mods

-- The counters follow a change of the rows, if the number of one project changes alike.
count-Counts :
    (project : ℕ) (change : ℤ → ℤ) (old new : List (ℕ × ℕ)) (m : ModRow)
    → (m.follows ≡ pos (followers m.id old)
        → (m.id == project) ≡ true
        → change m.follows ≡ pos (followers m.id new))
    → ((m.id == project) ≡ false → followers m.id new ≡ followers m.id old)
    → Counts old m
    → Counts new (if m.id == project then record m { follows = change m.follows } else m)
count-Counts project change old new m same other h = elim (Bool-cases (m.id == project)) [
  | inl e ↦ rw e (same h e)
  | inr e ↦ rw e (h ∙ ap pos (sym (other e)))
]

-- What changes neither the follows nor the ids and counters of the rows.
kept-Counts :
    (follows : List (ℕ × ℕ)) (b : Bool) (x y : ModRow)
    → (b ≡ true → Counts follows x)
    → Counts follows y
    → Counts follows (if b then x else y)
kept-Counts follows true x y h k = h refl
kept-Counts follows false x y h k = k

moved :
    {mods mods' : List ModRow} {follows follows' : List (ℕ × ℕ)}
    → mods' ≡ mods
    → follows' ≡ follows
    → All (Counts follows) mods
    → All (Counts follows') mods'
moved p q h = rw (p, q) h

module _ {Decimal : Type 0} (flags : Bitflags) where
  follow-Counted :
      (env : Env) (auth : Auth Decimal) (string : String) (db db' : Db Decimal)
      → project_follow env auth string db ≡ ok (no_content, db')
      → Counted db
      → Counted db'
  follow-Counted env auth string db db' h before =
      let (scopes, user, item, _, _, new, mods, follows) =
        project_follow_cases env auth string db db' h in
      record {
        once = λ u p. rw follows (once_more user.id item.id u p db.follows new (before.once u p));
        counts = moved mods follows (
            All-map (Counts db.follows) (Counts (db.follows ++ (user.id, item.id) ∷ [])) _ db.mods
              (λ m.
                count-Counts item.id increment db.follows _ m
                  (λ n e. ground (
                    arith,
                    followers_more user.id item.id m.id db.follows,
                    increment-pos _ m.follows n,
                  ))
                  (λ e. ground (arith, followers_more user.id item.id m.id db.follows)))
              before.counts);
      }

  unfollow-Counted :
      (env : Env) (auth : Auth Decimal) (string : String) (db db' : Db Decimal)
      → project_unfollow env auth string db ≡ ok (no_content, db')
      → Counted db
      → Counted db'
  unfollow-Counted env auth string db db' h before =
      let (scopes, user, item, _, _, there, mods, follows) =
        project_unfollow_cases env auth string db db' h in
      let less = λ (id : ℕ).
        followers_less user.id item.id id db.follows there (before.once user.id item.id) in
      record {
        once = λ u p. rw follows (once_less user.id item.id u p db.follows (before.once u p));
        counts = moved mods follows (
            All-map (Counts db.follows) _ _ db.mods
              (λ m.
                count-Counts item.id decrement db.follows _ m
                  (λ n e. decrement-pos _ m.follows (n ∙ ap pos (ground (arith, less m.id))))
                  (λ e. ground (arith, less m.id)))
              before.counts);
      }

  edit-Counted :
      (env : Env) (auth : Auth Decimal) (string : String) (db db' : Db Decimal)
      → Edited flags env auth string db db'
      → Counted db
      → Counted db'
  edit-Counted env auth string db db' e before = record {
    once = λ u p. rw e.follows_kept (before.once u p);
    counts = moved e.replaced e.follows_kept (
        All-map (Counts db.follows) (Counts db.follows) _ db.mods
          (λ m. kept-Counts db.follows (m.id == e.row.id) e.row m (λ _. row_counts)) before.counts);
  }
    where
      row_counts : Counts db.follows e.row
      row_counts =
          rw (e.permitted.same_id, e.permitted.same_follows)
            (All-Memᴰ (Counts db.follows) e.item db.mods before.counts
              (get_project-Memᴰ env string db.mods e.item e.found))

  schedule-Counted :
      (env : Env) (auth : Auth Decimal) (string : String) (s : SchedulingData) (db db' : Db Decimal)
      → project_schedule flags env auth string s db ≡ ok (no_content, db')
      → Counted db
      → Counted db'
  schedule-Counted env auth string s db db' h before =
      let (_, _, item, _, _, _, _, _, mods, follows) =
        project_schedule_cases flags env auth string s db db' h in
      record {
        once = λ u p. rw follows (before.once u p);
        counts = moved mods follows (
            All-map (Counts db.follows) (Counts db.follows) _ db.mods
              (λ m counts.
                kept-Counts db.follows (m.id == item.id) (schedule_row s.time m) m (λ _. counts)
                  counts)
              before.counts);
      }

  release-Counted : (today : ℕ) (db : Db Decimal) → Counted db → Counted (release today db)
  unfolding release release_row
  release-Counted today db before = record {
    once = before.once;
    counts =
        All-map (Counts db.follows) (Counts db.follows) (release_row today) db.mods
          (λ m counts. kept-Counts db.follows _ _ m (λ _. counts) counts) before.counts;
  }

  Step-Counted : {db db' : Db Decimal} → Step flags db db' → Counted db → Counted db'
  Step-Counted {db} {db'} (edit env auth string p none_of h) before =
      edit-Counted env auth string db db' (project_edit-Edited flags env auth string p db db' h)
        before
  Step-Counted {db} {db'} (schedule env auth string s h) before =
      schedule-Counted env auth string s db db' h before
  Step-Counted {db} {db'} (follow env auth string h) before =
      follow-Counted env auth string db db' h before
  Step-Counted {db} {db'} (unfollow env auth string h) before =
      unfollow-Counted env auth string db db' h before
  Step-Counted {db} (release_due today) before = release-Counted today db before

  -- If nobody follows a project twice and the counter of each project is the number of its
  -- followers, both stay so under edits by users who are no moderators, under calls that
  -- schedule, follow or unfollow a project, and under releases.
  pub Reach-Counted : {db db' : Db Decimal} → Reach flags db db' → Counted db → Counted db'
  Reach-Counted here before = before
  Reach-Counted (next earlier step) before = Step-Counted step (Reach-Counted earlier before)
