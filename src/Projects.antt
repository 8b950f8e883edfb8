-- ===== src/Projects.antt =====
-- Projects: the rows and the requests of src/routes/v2/projects.rs. A status is a text in its
-- column, which is read by `from_str`.
pub mod Edit
pub mod Columns
pub mod Links
pub mod Permitted
pub mod Edited
pub mod Found
pub mod Followers
pub mod Follows
pub mod Counted
pub mod Steps
pub mod Unapproved
pub mod Schedule
pub mod Follow
use labrinth.Base.{
  ℕ, String, Bool, false, Option, none, some, List, ◌||◌, ◌==◌, find, str_eq, Result, ok, err,
}
use labrinth.Base.Int.{ℤ}
use labrinth.Ids.{DecodingError, codes, parse_base62}
use labrinth.Status.Project.{ProjectStatus}
use labrinth.Status.Side.{SideType}
use labrinth.Status.Monetization.{MonetizationStatus}

-- A row of `mods`, with its rows of `mods_categories` (the category, and whether it is an
-- additional one) and of `mods_donations` (the platform and the URL), and its versions.
pub record ModRow : Type 0 where
  pub id : ℕ
  pub team_id : ℕ
  pub thread_id : ℕ
  pub versions : List ℕ
  pub title : String
  pub description : String
  pub body : String
  pub status : String
  pub requested_status : Option String
  pub moderation_message : Option String
  pub moderation_message_body : Option String
  pub queued : Option ℕ
  pub approved : Option ℕ
  pub webhook_sent : Bool
  pub categories : List (ℕ × Bool)
  pub issues_url : Option String
  pub source_url : Option String
  pub wiki_url : Option String
  pub license_url : Option String
  pub discord_url : Option String
  pub slug : Option String
  pub client_side : ℕ
  pub server_side : ℕ
  pub license : String
  pub donations : List (ℕ × String)
  pub monetization_status : String
  pub follows : ℤ

-- What the body of a donation link holds that is read.
pub record DonationLink : Type 0 where
  pub id : String
  pub url : String

pub record EditProject : Type 0 where
  pub title : Option String
  pub description : Option String
  pub body : Option String
  pub categories : Option (List String)
  pub additional_categories : Option (List String)
  pub issues_url : Option (Option String)
  pub source_url : Option (Option String)
  pub wiki_url : Option (Option String)
  pub license_url : Option (Option String)
  pub discord_url : Option (Option String)
  pub donation_urls : Option (List DonationLink)
  pub license_id : Option String
  pub client_side : Option SideType
  pub server_side : Option SideType
  pub slug : Option String
  pub status : Option ProjectStatus
  pub requested_status : Option (Option ProjectStatus)
  pub moderation_message : Option (Option String)
  pub moderation_message_body : Option (Option String)
  pub monetization_status : Option MonetizationStatus

-- What the routes use of other packages, of other tables and of the environment.
pub record Env : Type 0 where
  -- `str::trim`, and `str::to_lowercase` and `LOWER`
  pub trim : String → String
  pub to_lowercase : String → String
  -- `validator::Validate::validate`
  pub validate : EditProject → Result String (Unit {0})
  -- `spdx::Expression::parse`
  pub spdx_valid : String → Bool
  -- `get_id` of categories, of donation platforms and of side types, each of which has a row
  pub category_id : String → Option ℕ
  pub donation_platform_id : String → Option ℕ
  pub side_type_id : String → ℕ
  -- whether PUBLIC_DISCORD_WEBHOOK is set
  pub public_webhook : Bool
  -- `delete_from_index`
  pub delete_from_index : ℕ → Bool
  -- the ids that are drawn for the notification of a user and for the message of the thread
  pub notification_id : ℕ → ℕ
  pub message_id : ℕ
  pub now : ℕ

abbrev same_base62 : Result DecodingError ℕ → ℕ → Bool
same_base62 (ok n) id = n == id
same_base62 (err e) id = false

abbrev pub same_text : Option String → String → Bool
same_text none text = false
same_text (some a) text = str_eq a text

-- `Project::get`: by the id or by the slug.
unfoldable pub get_project : Env → String → List ModRow → Option ModRow
get_project env string mods =
    find
      (λ m.
        same_base62 (parse_base62 (codes string)) m.id
        || same_text m.slug (env.to_lowercase string))
      mods
