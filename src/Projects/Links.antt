-- ===== src/Projects/Links.antt =====
-- The links and the slug of a project, as `project_edit` writes them.
use labrinth.Base.{
  ℕ, String, Bool, false, not, ◌&&◌, Option, none, some, List, [], ◌∷◌, ◌++◌, any, ◌==◌, Result, ok,
  err, ok_or, guard, ◌>>=◌, ◌>>◌,
}
use labrinth.Ids.{DecodingError, codes, parse_base62}
use labrinth.Api.{ApiError, invalid_input, sqlx_database}
use labrinth.Teams.Permissions
use labrinth.Projects.{ModRow, DonationLink, same_text}
use labrinth.Projects.Columns.{Editor, requires}

module _ {Decimal : Type 0} (c : Editor Decimal) where
  unfoldable pub edit_issues_url : Option (Option String) → ModRow → Result ApiError ModRow
  edit_issues_url none m = ok m
  edit_issues_url (some url) m = do
    requires c Permissions.edit_details
        "You do not have the permissions to edit the issues URL of this project!"
    ok (record m { issues_url = url })

  unfoldable pub edit_source_url : Option (Option String) → ModRow → Result ApiError ModRow
  edit_source_url none m = ok m
  edit_source_url (some url) m = do
    requires c Permissions.edit_details
        "You do not have the permissions to edit the source URL of this project!"
    ok (record m { source_url = url })

  unfoldable pub edit_wiki_url : Option (Option String) → ModRow → Result ApiError ModRow
  edit_wiki_url none m = ok m
  edit_wiki_url (some url) m = do
    requires c Permissions.edit_details
        "You do not have the permissions to edit the wiki URL of this project!"
    ok (record m { wiki_url = url })

  unfoldable pub edit_license_url : Option (Option String) → ModRow → Result ApiError ModRow
  edit_license_url none m = ok m
  edit_license_url (some url) m = do
    requires c Permissions.edit_details
        "You do not have the permissions to edit the license URL of this project!"
    ok (record m { license_url = url })

  unfoldable pub edit_discord_url : Option (Option String) → ModRow → Result ApiError ModRow
  edit_discord_url none m = ok m
  edit_discord_url (some url) m = do
    requires c Permissions.edit_details
        "You do not have the permissions to edit the discord URL of this project!"
    ok (record m { discord_url = url })

  -- A donation platform is in the table once.
  unfoldable pub insert_donations :
      List DonationLink → List (ℕ × String) → Result ApiError (List (ℕ × String))
  insert_donations [] rows = ok rows
  insert_donations (d ∷ donations) rows = do
    id ← ok_or (c.env.donation_platform_id d.id) (invalid_input "Platform does not exist.")
    guard (not (any (λ r. r.0 == id) rows)) sqlx_database
    insert_donations donations (rows ++ (id, d.url) ∷ [])

  unfoldable pub edit_donation_urls : Option (List DonationLink) → ModRow → Result ApiError ModRow
  edit_donation_urls none m = ok m
  edit_donation_urls (some donations) m = do
    requires c Permissions.edit_details
        "You do not have the permissions to edit the donation links of this project!"
    rows ← insert_donations donations []
    ok (record m { donations = rows })

  -- `SELECT EXISTS(SELECT 1 FROM mods WHERE id=$1)`, for a slug that is the text of an id
  abbrev pub id_taken : Result DecodingError ℕ → List ModRow → Bool
  id_taken (ok id) mods = any (λ m. m.id == id) mods
  id_taken (err e) mods = false

  -- `SELECT EXISTS(SELECT 1 FROM mods WHERE slug = LOWER($1))`, for a slug that is another
  abbrev pub slug_taken : String → List ModRow → Bool
  slug_taken slug mods =
      not (same_text c.item.slug slug) && any (λ m. same_text m.slug (c.env.to_lowercase slug)) mods

  -- The rows are those of the table before the edit.
  unfoldable pub edit_slug : List ModRow → Option String → ModRow → Result ApiError ModRow
  edit_slug mods none m = ok m
  edit_slug mods (some slug) m = do
    requires c Permissions.edit_details
        "You do not have the permissions to edit the slug of this project!"
    guard (not (id_taken (parse_base62 (codes slug)) mods))
        (invalid_input "Slug collides with other project's id!")
    guard (not (slug_taken slug mods)) (invalid_input "Slug collides with other project's id!")
    ok (record m { slug = some (c.env.to_lowercase slug) })
