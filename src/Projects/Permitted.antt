-- ===== src/Projects/Permitted.antt =====
-- What an edit may change, by the permissions of the user.
pub mod Details
pub mod Others
pub mod Whole
use labrinth.Base.{
  ℕ, String, ◌≡◌, ◌⊎◌, inl, inr, refl, sym, ap, ◌∙◌, Bool, true, false, Option, none, some, List,
  [], Result, ok, err, arith, Result-cases, Bool-cases, Option-cases, if◌then◌else◌, ◌>>=◌,
}
use labrinth.Users.{User}
use labrinth.Users.Role
use labrinth.Api.{ApiError}
use labrinth.Status.Project
use labrinth.Status.Side.{SideType}
use labrinth.Status.Monetization
use labrinth.Status.Monetization.{MonetizationStatus}
use labrinth.Teams.Permissions
use labrinth.Projects.{ModRow, DonationLink, EditProject}
use labrinth.Projects.Columns.{
  Editor, item_status, is_mod, is_forced, requires, edit_title, edit_description,
  edit_requested_status, clear_categories, insert_categories, edit_categories,
  edit_additional_categories, edit_license, edit_client_side, edit_server_side,
  edit_moderation_message, edit_moderation_message_body, edit_body, edit_monetization_status,
}
use labrinth.Projects.Links.{
  edit_issues_url, edit_source_url, edit_wiki_url, edit_license_url, edit_discord_url,
  insert_donations, edit_donation_urls, edit_slug,
}
use labrinth.Projects.Edit.{with_status, edit_status, edit_row, is_processing, may_set}

-- A row without the columns that other permissions are for.
abbrev pub details : ModRow → ModRow
details m = record m { body = ""; moderation_message = none; moderation_message_body = none }

abbrev pub KeptOrCleared : Option String → Option String → Type 0
KeptOrCleared old new = (new ≡ old) ⊎ (new ≡ none)

module _ {Decimal : Type 0} (c : Editor Decimal) where
  pub record Permitted (old new : ModRow) : Type 0 where
    -- what no edit changes
    pub same_id : new.id ≡ old.id
    pub same_team : new.team_id ≡ old.team_id
    pub same_follows : new.follows ≡ old.follows
    -- without EDIT_DETAILS, all but the body and the messages
    pub details_kept :
        c.flags.contains c.perms Permissions.edit_details ≡ false → details new ≡ details old
    pub body_kept : c.flags.contains c.perms Permissions.edit_body ≡ false → new.body ≡ old.body
    -- a user who is no moderator clears the messages at most
    pub message_kept :
        is_mod c ≡ false → KeptOrCleared old.moderation_message new.moderation_message
    pub message_body_kept :
        is_mod c ≡ false → KeptOrCleared old.moderation_message_body new.moderation_message_body
    -- a status that the user may set, where another is set
    pub status_set :
        (new.status ≡ old.status)
        ⊎ ((s : Project.ProjectStatus) × (may_set c s ≡ true) × (new.status ≡ Project.as_str s))
    -- a user who is no moderator neither forces a demonetization nor lifts one
    pub monetization_set :
        is_mod c ≡ false
        → (new.monetization_status ≡ old.monetization_status)
          ⊎ ((is_forced c (Monetization.from_str c.item.monetization_status) ≡ false)
              × (s : MonetizationStatus) × (is_forced c s ≡ false)
              × (new.monetization_status ≡ Monetization.as_str s))

  pub Permitted-refl : (m : ModRow) → Permitted m m
  Permitted-refl m = record {
    same_id = refl;
    same_team = refl;
    same_follows = refl;
    details_kept = λ h. refl;
    body_kept = λ h. refl;
    message_kept = λ h. inl refl;
    message_body_kept = λ h. inl refl;
    status_set = inl refl;
    monetization_set = λ h. inl refl;
  }

  either_trans : (a b d : Option String) → KeptOrCleared a b → KeptOrCleared b d → KeptOrCleared a d
  either_trans a b d (inl p) (inl q) = inl (q ∙ p)
  either_trans a b d (inr p) (inl q) = inr (q ∙ p)
  either_trans a b d h (inr q) = inr q

  status_trans :
      {a b d : String}
      → (b ≡ a) ⊎ ((s : Project.ProjectStatus) × (may_set c s ≡ true) × (b ≡ Project.as_str s))
      → (d ≡ b) ⊎ ((s : Project.ProjectStatus) × (may_set c s ≡ true) × (d ≡ Project.as_str s))
      → (d ≡ a) ⊎ ((s : Project.ProjectStatus) × (may_set c s ≡ true) × (d ≡ Project.as_str s))
  status_trans (inl p) (inl q) = inl (q ∙ p)
  status_trans (inr (s, may, p)) (inl q) = inr (s, may, q ∙ p)
  status_trans h (inr q) = inr q

  monetization_trans :
      {F : Type 0} {a b d : String}
      → (b ≡ a)
        ⊎ (F × (s : MonetizationStatus) × (is_forced c s ≡ false) × (b ≡ Monetization.as_str s))
      → (d ≡ b)
        ⊎ (F × (s : MonetizationStatus) × (is_forced c s ≡ false) × (d ≡ Monetization.as_str s))
      → (d ≡ a)
        ⊎ (F × (s : MonetizationStatus) × (is_forced c s ≡ false) × (d ≡ Monetization.as_str s))
  monetization_trans (inl p) (inl q) = inl (q ∙ p)
  monetization_trans (inr (f, s, free, p)) (inl q) = inr (f, s, free, q ∙ p)
  monetization_trans h (inr q) = inr q

  pub Permitted-trans : {a b d : ModRow} → Permitted a b → Permitted b d → Permitted a d
  Permitted-trans {a} {b} {d} p q = record {
    same_id = q.same_id ∙ p.same_id;
    same_team = q.same_team ∙ p.same_team;
    same_follows = q.same_follows ∙ p.same_follows;
    details_kept = λ h. q.details_kept h ∙ p.details_kept h;
    body_kept = λ h. q.body_kept h ∙ p.body_kept h;
    message_kept = λ h. either_trans _ _ _ (p.message_kept h) (q.message_kept h);
    message_body_kept = λ h. either_trans _ _ _ (p.message_body_kept h) (q.message_body_kept h);
    status_set = status_trans p.status_set q.status_set;
    monetization_set = λ h. monetization_trans (p.monetization_set h) (q.monetization_set h);
  }

  -- A part that wants EDIT_DETAILS and changes none of the other columns.
  pub of_details :
      {old new : ModRow}
      → c.flags.contains c.perms Permissions.edit_details ≡ true
      → new.id ≡ old.id
      → new.team_id ≡ old.team_id
      → new.follows ≡ old.follows
      → new.body ≡ old.body
      → new.moderation_message ≡ old.moderation_message
      → new.moderation_message_body ≡ old.moderation_message_body
      → new.status ≡ old.status
      → new.monetization_status ≡ old.monetization_status
      → Permitted old new
  of_details has i t f b m mb s ms = record {
    same_id = i;
    same_team = t;
    same_follows = f;
    details_kept = λ h. absurd (ground arith);
    body_kept = λ h. b;
    message_kept = λ h. inl m;
    message_body_kept = λ h. inl mb;
    status_set = inl s;
    monetization_set = λ h. inl ms;
  }

  pub unchanged : {m m' : ModRow} → ◌≡◌ {A = Result ApiError ModRow} (ok m) (ok m') → Permitted m m'
  unchanged {m} {m'} h = let e : m' ≡ m = ground arith in rw e (Permitted-refl m)
