-- ===== src/Projects/Permitted/Others.antt =====
-- The other parts of an edit: categories, body, messages and status.
use labrinth.Base.{String, ◌≡◌, inl, inr, true, Option, none, some, List, ok, arith, Bool-cases}
use labrinth.Status.Project
use labrinth.Teams.Permissions
use labrinth.Projects.{ModRow}
use labrinth.Projects.Columns.{
  Editor, clear_categories, edit_moderation_message, edit_moderation_message_body, edit_body,
}
use labrinth.Projects.Edit.{with_status, edit_status, may_set}
use labrinth.Projects.Permitted.{Permitted, of_details, unchanged}

module _ {Decimal : Type 0} (c : Editor Decimal) where
  pub clear_categories-Permitted :
      (v w : Option (List String)) (m m' : ModRow)
      → clear_categories c v w m ≡ ok m'
      → Permitted c m m'
  unfolding clear_categories
  clear_categories-Permitted v w m m' h =
      elim (Bool-cases (c.flags.contains c.perms Permissions.edit_details)) [
        | inl has ↦
            of_details c has (ground arith) (ground arith) (ground arith) (ground arith)
              (ground arith) (ground arith) (ground arith) (ground arith)
        | inr lacks ↦ unchanged c (ground arith)
      ]

  pub edit_body-Permitted :
      (v : Option String) (m m' : ModRow) → edit_body c v m ≡ ok m' → Permitted c m m'
  unfolding edit_body
  edit_body-Permitted none m m' h = unchanged c h
  edit_body-Permitted (some v) m m' h = record {
    same_id = ground arith;
    same_team = ground arith;
    same_follows = ground arith;
    details_kept = λ l. ground arith;
    body_kept = λ l. absurd (ground arith);
    message_kept = λ l. inl (ground arith);
    message_body_kept = λ l. inl (ground arith);
    status_set = inl (ground arith);
    monetization_set = λ l. inl (ground arith);
  }

  pub edit_moderation_message-Permitted :
      (v : Option (Option String)) (m m' : ModRow)
      → edit_moderation_message c v m ≡ ok m'
      → Permitted c m m'
  unfolding edit_moderation_message
  edit_moderation_message-Permitted none m m' h = unchanged c h
  edit_moderation_message-Permitted (some v) m m' h = record {
    same_id = ground arith;
    same_team = ground arith;
    same_follows = ground arith;
    details_kept = λ l. ground arith;
    body_kept = λ l. ground arith;
    message_kept = λ l. inr (ground arith);
    message_body_kept = λ l. inl (ground arith);
    status_set = inl (ground arith);
    monetization_set = λ l. inl (ground arith);
  }

  pub edit_moderation_message_body-Permitted :
      (v : Option (Option String)) (m m' : ModRow)
      → edit_moderation_message_body c v m ≡ ok m'
      → Permitted c m m'
  unfolding edit_moderation_message_body
  edit_moderation_message_body-Permitted none m m' h = unchanged c h
  edit_moderation_message_body-Permitted (some v) m m' h = record {
    same_id = ground arith;
    same_team = ground arith;
    same_follows = ground arith;
    details_kept = λ l. ground arith;
    body_kept = λ l. ground arith;
    message_kept = λ l. inl (ground arith);
    message_body_kept = λ l. inr (ground arith);
    status_set = inl (ground arith);
    monetization_set = λ l. inl (ground arith);
  }

  pub with_status-Permitted :
      (s : Project.ProjectStatus) (m : ModRow)
      → c.flags.contains c.perms Permissions.edit_details ≡ true
      → may_set c s ≡ true
      → Permitted c m (with_status c s m)
  unfolding with_status
  with_status-Permitted s m has may = record {
    same_id = ground arith;
    same_team = ground arith;
    same_follows = ground arith;
    details_kept = λ l. absurd (ground arith);
    body_kept = λ l. ground arith;
    message_kept = λ l. ground arith;
    message_body_kept = λ l. ground arith;
    status_set = inr (s, may, ground arith);
    monetization_set = λ l. inl (ground arith);
  }

  pub edit_status-Permitted :
      (v : Option Project.ProjectStatus) (m m' : ModRow)
      → edit_status c v m ≡ ok m'
      → Permitted c m m'
  unfolding edit_status
  edit_status-Permitted none m m' h = unchanged c h
  edit_status-Permitted (some v) m m' h =
      let e : m' ≡ with_status c v m = ground arith in
      rw e (with_status-Permitted v m (ground arith) (ground arith))
