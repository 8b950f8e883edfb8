-- ===== src/Examples/Threads.antt =====
-- Threads at concrete inputs: the thread of project 9, in which user 2 writes.
use mathlib.Core.List.{Memᴰ}
use labrinth.Base.{ℕ, ◌≡◌, ◌≢◌, ◌↔◌, refl, true, false, none, some, [], ◌∷◌, ok, arith}
use labrinth.Users.{User, public_user}
use labrinth.Users.Role
use labrinth.Api.{no_content}
use labrinth.Status.Project
use labrinth.Threads.{MessageBody, text, DbThread, DbThreadMessage, ThreadMessage, shown_thread}
use labrinth.Threads.Kind.{ThreadType}
use labrinth.Threads.Access.{is_authorized_thread, authorized_threads}
use labrinth.Images.{thread_message}
use labrinth.Threads.Send.{Db, check_body, send_in, thread_send_message}
use labrinth.Threads.Shown.{Redacted, shown_thread-Redacted}
use labrinth.Threads.Sent.{Sent, thread_send_message-Sent, no_image_sent}
use labrinth.Threads.Allowed.{authorized_threads_iff}
use labrinth.Examples.Teams.{db_user, two_members, logged_in}

abbrev writer : User ℕ
writer = public_user (db_user 2 "developer")

abbrev note : DbThreadMessage
note = record {
  id = 70;
  thread_id = 30;
  author_id = some 3;
  body = text (104 ∷ 105 ∷ []) true none [];
  created = 0;
}

abbrev thread_of_project : DbThread
thread_of_project = record {
  id = 30;
  project_id = some 9;
  report_id = none;
  type_ = ThreadType.project;
  messages = note ∷ [];
  members = [];
  show_in_mod_inbox = false;
}

abbrev before : Db ℕ
before = record {
  tables = record {
    team_members = two_members.team_members;
    mods = two_members.mods;
    reports = [];
    users = two_members.users;
  };
  projects = record { id = 9; team_id = 7; status = Project.processing } ∷ [];
  threads = thread_of_project ∷ [];
  messages = note ∷ [];
  images = record { id = 8; context = thread_message none } ∷ [];
  notifications = [];
}

abbrev hello : MessageBody
hello = text (104 ∷ 105 ∷ []) false none []

abbrev same : ℕ → ℕ
same user = user

abbrev afterwards : Db ℕ
afterwards = record before {
  threads = record thread_of_project { show_in_mod_inbox = true } ∷ [];
  messages =
      note ∷ record { id = 71; thread_id = 30; author_id = some 2; body = hello; created = 5 } ∷ [];
}

sent :
    thread_send_message (logged_in 2 "developer") 30 hello 71 same 5 before
    ≡ ok (no_content, afterwards)
unfolding thread_send_message public_user check_body is_authorized_thread send_in Role.is_mod
    Role.from_string
sent = refl

plain : Role.is_mod writer.role ≡ false
unfolding public_user Role.is_mod Role.from_string
plain = refl

shown_thread-Redacted_example :
    ((m : ThreadMessage)
      → Memᴰ m (shown_thread thread_of_project (writer ∷ []) writer).messages
      → Redacted (writer ∷ []) thread_of_project m)
    × ((member : User ℕ)
        → Memᴰ member (shown_thread thread_of_project (writer ∷ []) writer).members
        → Memᴰ member (writer ∷ []) × (Role.is_mod member.role ≡ false))
shown_thread-Redacted_example = shown_thread-Redacted thread_of_project (writer ∷ []) writer plain

thread_send_message-Sent_example : Sent (logged_in 2 "developer") 30 hello 71 5 before afterwards
thread_send_message-Sent_example =
    thread_send_message-Sent (logged_in 2 "developer") 30 hello 71 same 5 before afterwards sent

new_id : ◌≢◌ {A = ℕ} 71 30
new_id = λ h. absurd (omega arith)

no_image_sent_example :
    thread_send_message
      (logged_in 2 "developer")
      30
      (text (104 ∷ []) false none (8 ∷ []))
      71
      same
      5
      before
    ≢ ok (no_content, afterwards)
no_image_sent_example =
    no_image_sent (logged_in 2 "developer") 30 (104 ∷ []) false none 8 [] 71 same 5 before
      afterwards refl new_id

project_linked : thread_of_project.project_id ≢ none → thread_of_project.type_ ≡ ThreadType.project
project_linked h = refl

report_linked : thread_of_project.report_id ≢ none → thread_of_project.type_ ≡ ThreadType.report
report_linked h = absurd (h refl)

authorized_threads_iff_example :
    Memᴰ thread_of_project (authorized_threads (thread_of_project ∷ []) writer before.tables) ↔ (
      Memᴰ thread_of_project (thread_of_project ∷ [])
      × (is_authorized_thread thread_of_project writer before.tables ≡ true))
authorized_threads_iff_example =
    authorized_threads_iff (thread_of_project ∷ []) writer before.tables thread_of_project
      project_linked report_linked
