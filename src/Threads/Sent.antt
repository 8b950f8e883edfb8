-- ===== src/Threads/Sent.antt =====
-- What a message that was sent has written.
use labrinth.Base.{
  ℕ, ◌≡◌, ◌≢◌, inl, inr, refl, Bool, true, false, Option, some, List, [], ◌∷◌, ◌++◌, any, find,
  ◌==◌, ==_iff, ok, err, Result-cases, Option-cases, Bool-cases, arith,
}
use labrinth.Users.{User}
use labrinth.Users.Role
use labrinth.Api.{no_content}
use labrinth.Teams.Routes.{Auth}
use labrinth.Teams.Rows.{find-Memᴰ}
use labrinth.Auth.Access.Retain.{any-append}
use labrinth.Threads.{
  MessageBody, text, status_change, thread_closure, thread_reopen, deleted, DbThread,
  DbThreadMessage, is_private,
}
use labrinth.Threads.Access.{is_authorized_thread}
use labrinth.Threads.Send.{
  Db, Image, check_body, attach, images_of, notify, send_in, thread_send_message,
}

attach_needs :
    (thread id : ℕ) (ids : List ℕ) (messages : List DbThreadMessage) (images images' : List Image)
    → attach thread (id ∷ ids) messages images ≡ ok images'
    → any (λ m. m.id == thread) messages ≡ true
unfolding attach
attach_needs thread id ids messages images images' h =
    elim (Option-cases (find (λ i. i.id == id) images)) [
      | inl e ↦ absurd (ground arith)
      | inr (image, e) ↦ ground arith
    ]

check_body_private :
    (is_mod : Bool) (body : MessageBody) (thread : ℕ) (messages : List DbThreadMessage)
    → check_body is_mod body thread messages ≡ ok tt
    → is_private body ≡ true
    → is_mod ≡ true
unfolding check_body
check_body_private is_mod (text body private replying_to images) thread messages h p = ground arith
check_body_private is_mod (status_change a b) thread messages h p = absurd (ground arith)
check_body_private is_mod thread_closure thread messages h p = absurd (ground arith)
check_body_private is_mod thread_reopen thread messages h p = absurd (ground arith)
check_body_private is_mod deleted thread messages h p = absurd (ground arith)

module _ {Decimal : Type 0} where
  abbrev new_message : User Decimal → DbThread → MessageBody → ℕ → ℕ → DbThreadMessage
  new_message user thread body message_id now = record {
    id = message_id;
    thread_id = thread.id;
    author_id = some user.id;
    body = body;
    created = now;
  }

  -- A message of a user who may read the thread and may send it.
  pub record Sent (auth : Auth Decimal) (id : ℕ) (body : MessageBody) (message_id now : ℕ)
      (db db' : Db Decimal) : Type 0 where
    pub user : User Decimal
    pub scopes : ℕ
    pub caller : auth ≡ ok (scopes, user)
    pub thread : DbThread
    pub found : find (λ t. t.id == id) db.threads ≡ some thread
    pub authorized : is_authorized_thread thread user db.tables ≡ true
    pub private_by_moderator : is_private body ≡ true → Role.is_mod user.role ≡ true
    pub written : db'.messages ≡ db.messages ++ new_message user thread body message_id now ∷ []
    pub tables_kept : db'.tables ≡ db.tables

  send_in_effect :
      (user : User Decimal) (body : MessageBody) (thread : DbThread) (message_id : ℕ)
      (notification_id : ℕ → ℕ) (now : ℕ) (db db' : Db Decimal)
      → send_in user body thread message_id notification_id now db ≡ ok (no_content, db')
      → (db'.messages ≡ db.messages ++ new_message user thread body message_id now ∷ [])
        × (db'.tables ≡ db.tables)
        × (attach thread.id (images_of body) db'.messages db.images ≡ ok db'.images)
  unfolding send_in
  send_in_effect user body thread message_id notification_id now db db' h =
      elim (Result-cases (notify user thread message_id notification_id db)) [
        | inr (x, e) ↦ absurd (ground arith)
        | inl ((notifications, mod_notif), e) ↦
            elim (Result-cases (
              attach thread.id (images_of body)
                (db.messages ++ new_message user thread body message_id now ∷ []) db.images)) [
                  | inr (x, f) ↦ absurd (ground arith)
                  | inl (images, f) ↦ ground arith
                ]
      ]

  send_effect :
      (auth : Auth Decimal) (id : ℕ) (body : MessageBody) (message_id : ℕ) (notification_id : ℕ → ℕ)
      (now : ℕ) (db db' : Db Decimal)
      → thread_send_message auth id body message_id notification_id now db ≡ ok (no_content, db')
      → (user : User Decimal) × (scopes : ℕ) × (thread : DbThread) × (auth ≡ ok (scopes, user))
        × (check_body (Role.is_mod user.role) body id db.messages ≡ ok tt)
        × (find (λ t. t.id == id) db.threads ≡ some thread)
        × (is_authorized_thread thread user db.tables ≡ true)
        × (send_in user body thread message_id notification_id now db ≡ ok (no_content, db'))
  unfolding thread_send_message
  send_effect (err e) id body message_id notification_id now db db' h = absurd (ground arith)
  send_effect (ok (scopes, user)) id body message_id notification_id now db db' h =
      elim (Result-cases (check_body (Role.is_mod user.role) body id db.messages)) [
        | inr (x, e) ↦ absurd (ground arith)
        | inl (u, e) ↦ elim (Option-cases (find (λ t. t.id == id) db.threads)) [
          | inl f ↦ absurd (ground arith)
          | inr (thread, f) ↦ elim (Bool-cases (is_authorized_thread thread user db.tables)) [
            | inl g ↦ (user, scopes, thread, refl, e, f, g, ground arith)
            | inr g ↦ absurd (ground arith)
          ]
        ]
      ]

  -- A message that the route sends is of a user who may see the thread, and who is a moderator
  -- where it is private; the route adds it to the messages, with its author and its thread, and
  -- changes no team, report or user.
  pub thread_send_message-Sent :
      (auth : Auth Decimal) (id : ℕ) (body : MessageBody) (message_id : ℕ) (notification_id : ℕ → ℕ)
      (now : ℕ) (db db' : Db Decimal)
      → thread_send_message auth id body message_id notification_id now db ≡ ok (no_content, db')
      → Sent auth id body message_id now db db'
  thread_send_message-Sent auth id body message_id notification_id now db db' h =
      let (user, scopes, thread, caller, checked, found, authorized, run) =
        send_effect auth id body message_id notification_id now db db' h in
      let (written, kept, attached) =
        send_in_effect user body thread message_id notification_id now db db' run in
      record {
        user = user;
        scopes = scopes;
        caller = caller;
        thread = thread;
        found = found;
        authorized = authorized;
        private_by_moderator =
            check_body_private (Role.is_mod user.role) body id db.messages checked;
        written = written;
        tables_kept = kept;
      }

  -- If no message, the new one included, has the id of the thread, a message with an image is
  -- never sent: the id of the thread goes into a column that refers to the messages.
  pub no_image_sent :
      (auth : Auth Decimal) (id : ℕ) (bytes : List ℕ) (private : Bool) (replying_to : Option ℕ)
      (image : ℕ) (images : List ℕ) (message_id : ℕ) (notification_id : ℕ → ℕ) (now : ℕ)
      (db db' : Db Decimal)
      → any (λ m. m.id == id) db.messages ≡ false
      → message_id ≢ id
      → thread_send_message auth id
          (text bytes private replying_to (image ∷ images))
          message_id
          notification_id
          now
          db
        ≢ ok (no_content, db')
  no_image_sent auth id bytes private replying_to image images message_id notification_id now db db'
        none_has other h =
      let body = text bytes private replying_to (image ∷ images) in
      let (user, scopes, thread, caller, checked, found, authorized, run) =
        send_effect auth id body message_id notification_id now db db' h in
      let (written, kept, attached) =
        send_in_effect user body thread message_id notification_id now db db' run in
      let same : thread.id ≡ id =
        (==_iff thread.id id).0 (find-Memᴰ (λ t. t.id == id) thread db.threads found).1 in
      let has = attach_needs thread.id image images db'.messages db.images db'.images attached in
      let needs : any (λ m. m.id == id) db'.messages ≡ true = rw same at has in
      let there = rw written at needs in
      ground (
        arith,
        any-append (λ m. m.id == id) db.messages (new_message user thread body message_id now ∷ []),
      )
