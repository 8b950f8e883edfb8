-- ===== src/Queue/Auth.antt =====
-- `AuthQueue` (src/queue/session.rs): the sessions and tokens that were used, and the batch that
-- writes this to the tables. The Redis caches are left out.
pub mod Batch
use labrinth.Base.{
  ℕ, Bool, false, true, not, ◌||◌, Option, none, some, List, [], ◌∷◌, map, leb, ◌==◌, if◌then◌else◌,
  insert, any, filterb,
}
use labrinth.Auth.Tokens.{SessionMetadata, Session, PersonalAccessToken}

pub record AuthQueue : Type 0 where
  pub session_queue : List (ℕ × SessionMetadata)
  -- a set
  pub pat_queue : List ℕ

pub record Tables : Type 0 where
  pub sessions : List Session
  pub pats : List PersonalAccessToken

unfoldable pub new : AuthQueue
new = record { session_queue = []; pat_queue = [] }

unfoldable pub add_session : ℕ → SessionMetadata → AuthQueue → AuthQueue
unfolding insert
add_session id metadata q = record q { session_queue = insert id metadata q.session_queue }

unfoldable pub add_pat : ℕ → AuthQueue → AuthQueue
add_pat id q =
    if any (λ x. x == id) q.pat_queue then q else record q { pat_queue = id ∷ q.pat_queue }

pub take_sessions : AuthQueue → List (ℕ × SessionMetadata) × AuthQueue
take_sessions q = (q.session_queue, record q { session_queue = [] })

pub take_pats : AuthQueue → List ℕ × AuthQueue
take_pats q = (q.pat_queue, record q { pat_queue = [] })

-- `UPDATE sessions SET last_login = now, … WHERE (id = $1)`
pub touch_session : ℕ → ℕ → SessionMetadata → Session → Session
touch_session now id metadata s =
    if s.id == id then record s { last_login = now; metadata = metadata } else s

pub touch_sessions : ℕ → List (ℕ × SessionMetadata) → List Session → List Session
touch_sessions now [] rows = rows
touch_sessions now ((id, metadata) ∷ queue) rows =
    touch_sessions now queue (map (touch_session now id metadata) rows)

-- `UPDATE pats SET last_used = now WHERE (id = $1)`
pub touch_pat : ℕ → ℕ → PersonalAccessToken → PersonalAccessToken
touch_pat now id p = if p.id == id then record p { last_used = some now } else p

pub touch_pats : ℕ → List ℕ → List PersonalAccessToken → List PersonalAccessToken
touch_pats now [] rows = rows
touch_pats now (id ∷ queue) rows = touch_pats now queue (map (touch_pat now id) rows)

-- `SELECT id … WHERE refresh_expires <= NOW()`
pub expired_ids : ℕ → List Session → List ℕ
expired_ids now rows = map (λ s. s.id) (filterb (λ s. leb s.refresh_expires now) rows)

-- `Session::remove`
unfoldable pub remove_session : ℕ → List Session → List Session
remove_session id rows = filterb (λ s. not (s.id == id)) rows

pub remove_sessions : List ℕ → List Session → List Session
remove_sessions [] rows = rows
remove_sessions (id ∷ ids) rows = remove_sessions ids (remove_session id rows)

abbrev pub is_empty {ℓ} : {A : Type ℓ} → List A → Bool
is_empty [] = true
is_empty (x ∷ xs) = false

pub write_batch : ℕ → List (ℕ × SessionMetadata) → List ℕ → Tables → Tables
unfolding touch_sessions touch_pats expired_ids remove_sessions
write_batch now session_queue pat_queue t =
    let touched = touch_sessions now session_queue t.sessions in
    record {
      sessions = remove_sessions (expired_ids now touched) touched;
      pats = touch_pats now pat_queue t.pats;
    }

unfoldable pub index : ℕ → AuthQueue → Tables → AuthQueue × Tables
unfolding take_sessions take_pats
index now q t =
    let (session_queue, q') = take_sessions q in
    let (pat_queue, q'') = take_pats q' in
    (
      q'',
      if not (is_empty session_queue) || not (is_empty pat_queue)
          then write_batch now session_queue pat_queue t
          else t,
    )
