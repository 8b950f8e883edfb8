-- ===== src/Queue/Auth/Batch.antt =====
-- What the batch writes.
use labrinth.Base.{
  ℕ, ◌≡◌, refl, ap, sym, ◌∙◌, Bool, false, Option, none, some, List, [], ◌∷◌, map, arith, leb, ◌==◌,
  lookup, UniqueKeys, Option-cases, inl, inr, any, ◌&&◌, insert-UniqueKeys, Bool-cases,
  if◌then◌else◌, ==_iff,
}
use labrinth.Auth.Tokens.{SessionMetadata, Session}
use labrinth.Queue.Auth.{
  AuthQueue, touch_session, touch_sessions, remove_session, remove_sessions, expired_ids, index,
  write_batch, Tables, is_empty, new, add_session,
}

-- What a batch makes of one session: the data of its entry, if it has one.
abbrev updated : ℕ → Option SessionMetadata → Session → Session
updated now none s = s
updated now (some metadata) s = record s { last_login = now; metadata = metadata }

pub touched : ℕ → List (ℕ × SessionMetadata) → Session → Session
touched now queue s = updated now (lookup s.id queue) s

touched-touch_session :
    (now id : ℕ) (metadata : SessionMetadata) (queue : List (ℕ × SessionMetadata)) (s : Session)
    → lookup id queue ≡ none
    → touched now queue (touch_session now id metadata s) ≡ touched now ((id, metadata) ∷ queue) s
unfolding touched touch_session lookup
touched-touch_session now id metadata queue s fresh = ground arith

map-touched-touch_session :
    (now id : ℕ) (metadata : SessionMetadata) (queue : List (ℕ × SessionMetadata))
    (rows : List Session)
    → lookup id queue ≡ none
    → map (touched now queue) (map (touch_session now id metadata) rows)
      ≡ map (touched now ((id, metadata) ∷ queue)) rows
map-touched-touch_session now id metadata queue [] fresh = refl
map-touched-touch_session now id metadata queue (s ∷ rows) fresh = cc (
  touched-touch_session now id metadata queue s fresh,
  map-touched-touch_session now id metadata queue rows fresh,
)

map-touched-nil : (now : ℕ) (rows : List Session) → map (touched now []) rows ≡ rows
unfolding touched lookup
map-touched-nil now [] = refl
map-touched-nil now (s ∷ rows) = ap (λ t. s ∷ t) (map-touched-nil now rows)

-- The updates one after the other are one pass over the rows.
touch_sessions-map :
    (now : ℕ) (queue : List (ℕ × SessionMetadata)) (rows : List Session)
    → UniqueKeys queue
    → touch_sessions now queue rows ≡ map (touched now queue) rows
unfolding touch_sessions
touch_sessions-map now [] rows unique = sym (map-touched-nil now rows)
touch_sessions-map now ((id, metadata) ∷ queue) rows (fresh, unique) =
    touch_sessions-map now queue (map (touch_session now id metadata) rows) unique
    ∙ map-touched-touch_session now id metadata queue rows fresh

-- The row of a session.
unfoldable pub session_of : ℕ → List Session → Option Session
session_of id [] = none
session_of id (s ∷ rows) = if s.id == id then some s else session_of id rows

-- `id` is the primary key of the table.
abbrev pub UniqueIds : List Session → Type 0
UniqueIds [] = Unit
UniqueIds (s ∷ rows) = (session_of s.id rows ≡ none) × UniqueIds rows

id-touched :
    (now : ℕ) (queue : List (ℕ × SessionMetadata)) (s : Session) → (touched now queue s).id ≡ s.id
unfolding touched
id-touched now queue s = ground arith

refresh_expires-touched :
    (now : ℕ) (queue : List (ℕ × SessionMetadata)) (s : Session)
    → (touched now queue s).refresh_expires ≡ s.refresh_expires
unfolding touched
refresh_expires-touched now queue s = ground arith

session_of-map :
    (now id : ℕ) (queue : List (ℕ × SessionMetadata)) (rows : List Session)
    → session_of id (map (touched now queue) rows)
      ≡ elim (session_of id rows) [ none ↦ none | some s ↦ some (touched now queue s) ]
unfolding session_of
session_of-map now id queue [] = refl
session_of-map now id queue (s ∷ rows) =
    ground (arith, id-touched now queue s, session_of-map now id queue rows)

UniqueIds-map :
    (now : ℕ) (queue : List (ℕ × SessionMetadata)) (rows : List Session)
    → UniqueIds rows
    → UniqueIds (map (touched now queue) rows)
UniqueIds-map now queue [] h = tt
UniqueIds-map now queue (s ∷ rows) (fresh, h) = (
  ground (arith, id-touched now queue s, session_of-map now s.id queue rows),
  UniqueIds-map now queue rows h,
)

session_of-remove_session :
    (k id : ℕ) (rows : List Session)
    → session_of id (remove_session k rows) ≡ (if k == id then none else session_of id rows)
unfolding session_of remove_session
session_of-remove_session k id [] = ground arith
session_of-remove_session k id (s ∷ rows) = ground (arith, session_of-remove_session k id rows)

session_of-remove_sessions :
    (id : ℕ) (ids : List ℕ) (rows : List Session)
    → session_of id (remove_sessions ids rows)
      ≡ (if any (λ k. k == id) ids then none else session_of id rows)
unfolding remove_sessions
session_of-remove_sessions id [] rows = refl
session_of-remove_sessions id (k ∷ ids) rows = ground (
  arith,
  session_of-remove_sessions id ids (remove_session k rows),
  session_of-remove_session k id rows,
)

abbrev is_expired : ℕ → Option Session → Bool
is_expired now none = false
is_expired now (some s) = leb s.refresh_expires now

expired_ids-has :
    (now id : ℕ) (rows : List Session)
    → UniqueIds rows
    → any (λ k. k == id) (expired_ids now rows) ≡ is_expired now (session_of id rows)
unfolding expired_ids session_of
expired_ids-has now id [] h = refl
expired_ids-has now id (s ∷ rows) (fresh, h) = elim (Bool-cases (s.id == id)) [
  | inl same ↦
      let e = (==_iff s.id id).0 same in
      let gone : session_of id rows ≡ none = rw e at fresh in
      ground (arith, expired_ids-has now id rows h)
  | inr other ↦ ground (arith, expired_ids-has now id rows h)
]

-- What becomes of the row of a session: deleted if it has expired, else updated if it is queued.
abbrev pub after : ℕ → List (ℕ × SessionMetadata) → Option Session → Option Session
after now queue none = none
after now queue (some s) = if leb s.refresh_expires now then none else some (touched now queue s)

session_of-write_batch :
    (now id : ℕ) (queue : List (ℕ × SessionMetadata)) (pats : List ℕ) (t : Tables)
    → UniqueKeys queue
    → UniqueIds t.sessions
    → session_of id (write_batch now queue pats t).sessions
      ≡ after now queue (session_of id t.sessions)
unfolding write_batch
session_of-write_batch now id queue pats t unique ids =
    rw (touch_sessions-map now queue t.sessions unique) (
      rw
        (
          session_of-remove_sessions id (expired_ids now (map (touched now queue) t.sessions))
              (map (touched now queue) t.sessions),
          expired_ids-has now id (map (touched now queue) t.sessions)
              (UniqueIds-map now queue t.sessions ids),
          session_of-map now id queue t.sessions,
        )
        (elim (Option-cases (session_of id t.sessions)) [
          | inl e ↦ rw e refl
          | inr (s, e) ↦ rw e (ground (arith, refresh_expires-touched now queue s))
        ]))

-- After `index` the queue is empty. If a session or a token was queued, the row of every session
-- is gone where its refresh time has passed, carries the time and the data of its entry where it
-- is queued and stays where it is not; if nothing was queued, no row has changed.
pub session_of-index :
    (now id : ℕ) (q : AuthQueue) (t : Tables)
    → UniqueKeys q.session_queue
    → UniqueIds t.sessions
    → ((index now q t).0 ≡ new)
      × (session_of id (index now q t).1.sessions ≡ (
          if is_empty q.session_queue && is_empty q.pat_queue
          then session_of id t.sessions
          else after now q.session_queue (session_of id t.sessions)))
unfolding index new
session_of-index now id q t unique ids =
    (refl, ground (arith, session_of-write_batch now id q.session_queue q.pat_queue t unique ids))

-- Queueing a session keeps one entry for each session.
add_session-UniqueKeys :
    (id : ℕ) (metadata : SessionMetadata) (q : AuthQueue)
    → UniqueKeys q.session_queue
    → UniqueKeys (add_session id metadata q).session_queue
unfolding add_session
add_session-UniqueKeys id metadata q h = insert-UniqueKeys id metadata q.session_queue h
