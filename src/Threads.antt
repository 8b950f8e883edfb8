-- ===== src/Threads.antt =====
-- Threads of messages: the rows of src/database/models/thread_item.rs and what the API shows of
-- them, src/models/threads.rs. A text is the list of its bytes.
pub mod Kind
pub mod Access
pub mod Send
pub mod Shown
pub mod Sent
pub mod Allowed
use labrinth.Base.{
  ℕ, Bool, true, false, not, ◌||◌, ◌&&◌, Option, none, some, List, [], ◌∷◌, map, filterb, find,
  ◌==◌, if◌then◌else◌,
}
use labrinth.Users.{User}
use labrinth.Users.Role
use labrinth.Status.Project.{ProjectStatus}
use Kind.{ThreadType}

pub data MessageBody : Type 0 where
  text :
      (body : List ℕ) (private : Bool) (replying_to : Option ℕ) (associated_images : List ℕ)
      → MessageBody
  status_change : (new_status old_status : ProjectStatus) → MessageBody
  thread_closure thread_reopen deleted : MessageBody

-- A row of `threads_messages`.
pub record DbThreadMessage : Type 0 where
  pub id : ℕ
  pub thread_id : ℕ
  pub author_id : Option ℕ
  pub body : MessageBody
  pub created : ℕ

-- A row of `threads`, with its messages and members.
pub record DbThread : Type 0 where
  pub id : ℕ
  pub project_id : Option ℕ
  pub report_id : Option ℕ
  pub type_ : ThreadType
  pub messages : List DbThreadMessage
  pub members : List ℕ
  pub show_in_mod_inbox : Bool

pub record ThreadMessage : Type 0 where
  pub id : ℕ
  pub author_id : Option ℕ
  pub body : MessageBody
  pub created : ℕ

pub record Thread (Decimal : Type 0) : Type 0 where
  pub id : ℕ
  pub type_ : ThreadType
  pub project_id : Option ℕ
  pub report_id : Option ℕ
  pub messages : List ThreadMessage
  pub members : List (User Decimal)

abbrev pub is_private : MessageBody → Bool
is_private (text body private replying_to associated_images) = private
is_private (status_change new_status old_status) = false
is_private thread_closure = false
is_private thread_reopen = false
is_private deleted = false

abbrev pub same_id : Option ℕ → ℕ → Bool
same_id none id = false
same_id (some a) id = a == id

module _ {Decimal : Type 0} where
  -- Whether an author is found and to be hidden from a user.
  abbrev pub hides : User Decimal → Option (User Decimal) → Bool
  hides user none = false
  hides user (some author) = Role.is_mod author.role && not (Role.is_mod user.role)

  unfoldable pub shown_message :
      List (User Decimal) → User Decimal → DbThreadMessage → ThreadMessage
  shown_message users user x = record {
    id = x.id;
    author_id =
        if hides user (find (λ y. same_id x.author_id y.id) users) then none else x.author_id;
    body = x.body;
    created = x.created;
  }

  -- `Thread::from`
  unfoldable pub shown_thread : DbThread → List (User Decimal) → User Decimal → Thread Decimal
  unfolding shown_message
  shown_thread data' users user = record {
    id = data'.id;
    type_ = data'.type_;
    project_id = data'.project_id;
    report_id = data'.report_id;
    messages =
        map (shown_message users user)
          (filterb (λ x. not (is_private x.body) || Role.is_mod user.role) data'.messages);
    members = filterb (λ x. not (Role.is_mod x.role) || Role.is_mod user.role) users;
  }
