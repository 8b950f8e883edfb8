-- ===== src/Examples/Queue.antt =====
-- The queues at concrete inputs.
use labrinth.Base.{
  ℕ, zero, suc, ◌+◌, ◌-◌, ◌^◌, ◌≤◌, ◌≡◌, ◌≢◌, refl, ap, true, false, ◌&&◌, Option, none, some, List,
  [], ◌∷◌, arith, Result, ok, err, if◌then◌else◌,
}
use labrinth.Queue.Download
use labrinth.Queue.Download.{Row, Tables, DownloadQueue, DatabaseError, out_of_range, max_downloads}
use labrinth.Queue.Download.Counts.{
  downloads_of, plus, of_version, of_project, index-counts, index_failed,
}
use labrinth.Queue.Auth
use labrinth.Queue.Auth.{AuthQueue, is_empty}
use labrinth.Queue.Auth.Batch.{session_of, after, session_of-index}
use labrinth.Auth.Tokens.{SessionMetadata, Session}

-- Two downloads of a version and one of another.
abbrev three_downloads : DownloadQueue
three_downloads = record { queue = (1, 10) ∷ (1, 10) ∷ (2, 20) ∷ [] }

abbrev counters : Tables
counters = record {
  versions = record { id = 10; downloads = 5 } ∷ record { id = 20; downloads = 0 } ∷ [];
  mods = record { id = 1; downloads = 7 } ∷ record { id = 2; downloads = 0 } ∷ [];
}

index-counts_example :
    (t' : Tables) × (Download.index three_downloads counters ≡ (ok tt, record { queue = [] }, t'))
    × (downloads_of 10 t'.versions
        ≡ plus (of_version 10 three_downloads.queue) (downloads_of 10 counters.versions))
    × (downloads_of 10 t'.mods
        ≡ plus (of_project 10 three_downloads.queue) (downloads_of 10 counters.mods))
index-counts_example =
    index-counts three_downloads counters 10 (omega arith, (omega arith, tt))
      (omega arith, (omega arith, tt))

-- A counter that is full.
abbrev full : Tables
full = record { versions = record { id = 10; downloads = max_downloads } ∷ []; mods = [] }

fails : (Download.index three_downloads full).0 ≡ err out_of_range
unfolding Download.index
fails = refl

not_ok : (Download.index three_downloads full).0 ≢ ok tt
not_ok h = ground (arith, fails)

queue_lost :
    ((Download.index three_downloads full).1 ≡ record { queue = [] })
    × ((Download.index three_downloads full).2 ≡ full)
queue_lost = index_failed three_downloads full not_ok

abbrev browser : SessionMetadata
browser = record {
  city = none;
  country = none;
  ip = "127.0.0.1";
  os = none;
  platform = none;
  user_agent = "curl";
}

abbrev a_session : ℕ → ℕ → Session
a_session id refresh_expires = record {
  id = id;
  session = "mra_";
  user_id = 1;
  created = 0;
  last_login = 0;
  expires = 100;
  refresh_expires = refresh_expires;
  metadata = browser;
}

abbrev used : AuthQueue
used = record { session_queue = (1, browser) ∷ []; pat_queue = [] }

abbrev sessions : Auth.Tables
sessions = record { sessions = a_session 1 200 ∷ a_session 2 40 ∷ []; pats = [] }

session_of-index_example :
    ((Auth.index 50 used sessions).0 ≡ Auth.new)
    × (session_of 2 (Auth.index 50 used sessions).1.sessions ≡ (
        if is_empty used.session_queue && is_empty used.pat_queue
        then session_of 2 sessions.sessions
        else after 50 used.session_queue (session_of 2 sessions.sessions)))
unfolding labrinth.Base.lookup session_of
session_of-index_example = session_of-index 50 2 used sessions (refl, tt) (refl, (refl, tt))
