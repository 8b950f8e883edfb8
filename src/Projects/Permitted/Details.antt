-- ===== src/Projects/Permitted/Details.antt =====
-- The parts of an edit that want EDIT_DETAILS.
use labrinth.Base.{
  String, ◌≡◌, inl, inr, true, false, Option, none, some, List, [], ok, arith, Result-cases,
}
use labrinth.Status.Project
use labrinth.Status.Side.{SideType}
use labrinth.Status.Monetization.{MonetizationStatus}
use labrinth.Projects.{ModRow, DonationLink}
use labrinth.Projects.Columns.{
  Editor, edit_title, edit_description, edit_requested_status, insert_categories, edit_categories,
  edit_additional_categories, edit_license, edit_client_side, edit_server_side,
  edit_monetization_status,
}
use labrinth.Projects.Links.{
  edit_issues_url, edit_source_url, edit_wiki_url, edit_license_url, edit_discord_url,
  insert_donations, edit_donation_urls, edit_slug,
}
use labrinth.Projects.Permitted.{Permitted, of_details, unchanged}

module _ {Decimal : Type 0} (c : Editor Decimal) where
  pub edit_title-Permitted :
      (v : Option String) (m m' : ModRow) → edit_title c v m ≡ ok m' → Permitted c m m'
  unfolding edit_title
  edit_title-Permitted none m m' h = unchanged c h
  edit_title-Permitted (some v) m m' h =
      of_details c (ground arith) (ground arith) (ground arith) (ground arith) (ground arith)
        (ground arith) (ground arith) (ground arith) (ground arith)

  pub edit_description-Permitted :
      (v : Option String) (m m' : ModRow) → edit_description c v m ≡ ok m' → Permitted c m m'
  unfolding edit_description
  edit_description-Permitted none m m' h = unchanged c h
  edit_description-Permitted (some v) m m' h =
      of_details c (ground arith) (ground arith) (ground arith) (ground arith) (ground arith)
        (ground arith) (ground arith) (ground arith) (ground arith)

  pub edit_requested_status-Permitted :
      (v : Option (Option Project.ProjectStatus)) (m m' : ModRow)
      → edit_requested_status c v m ≡ ok m'
      → Permitted c m m'
  unfolding edit_requested_status
  edit_requested_status-Permitted none m m' h = unchanged c h
  edit_requested_status-Permitted (some v) m m' h =
      of_details c (ground arith) (ground arith) (ground arith) (ground arith) (ground arith)
        (ground arith) (ground arith) (ground arith) (ground arith)

  pub edit_license-Permitted :
      (v : Option String) (m m' : ModRow) → edit_license c v m ≡ ok m' → Permitted c m m'
  unfolding edit_license
  edit_license-Permitted none m m' h = unchanged c h
  edit_license-Permitted (some v) m m' h =
      of_details c (ground arith) (ground arith) (ground arith) (ground arith) (ground arith)
        (ground arith) (ground arith) (ground arith) (ground arith)

  pub edit_client_side-Permitted :
      (v : Option SideType) (m m' : ModRow) → edit_client_side c v m ≡ ok m' → Permitted c m m'
  unfolding edit_client_side
  edit_client_side-Permitted none m m' h = unchanged c h
  edit_client_side-Permitted (some v) m m' h =
      of_details c (ground arith) (ground arith) (ground arith) (ground arith) (ground arith)
        (ground arith) (ground arith) (ground arith) (ground arith)

  pub edit_server_side-Permitted :
      (v : Option SideType) (m m' : ModRow) → edit_server_side c v m ≡ ok m' → Permitted c m m'
  unfolding edit_server_side
  edit_server_side-Permitted none m m' h = unchanged c h
  edit_server_side-Permitted (some v) m m' h =
      of_details c (ground arith) (ground arith) (ground arith) (ground arith) (ground arith)
        (ground arith) (ground arith) (ground arith) (ground arith)

  pub edit_monetization_status-Permitted :
      (v : Option MonetizationStatus) (m m' : ModRow)
      → edit_monetization_status c v m ≡ ok m'
      → Permitted c m m'
  unfolding edit_monetization_status
  edit_monetization_status-Permitted none m m' h = unchanged c h
  edit_monetization_status-Permitted (some v) m m' h = record {
    same_id = ground arith;
    same_team = ground arith;
    same_follows = ground arith;
    details_kept = λ l. absurd (ground arith);
    body_kept = λ l. ground arith;
    message_kept = λ l. inl (ground arith);
    message_body_kept = λ l. inl (ground arith);
    status_set = inl (ground arith);
    monetization_set = λ l. inr (ground arith, v, ground arith, ground arith);
  }

  pub edit_issues_url-Permitted :
      (v : Option (Option String)) (m m' : ModRow)
      → edit_issues_url c v m ≡ ok m'
      → Permitted c m m'
  unfolding edit_issues_url
  edit_issues_url-Permitted none m m' h = unchanged c h
  edit_issues_url-Permitted (some v) m m' h =
      of_details c (ground arith) (ground arith) (ground arith) (ground arith) (ground arith)
        (ground arith) (ground arith) (ground arith) (ground arith)

  pub edit_source_url-Permitted :
      (v : Option (Option String)) (m m' : ModRow)
      → edit_source_url c v m ≡ ok m'
      → Permitted c m m'
  unfolding edit_source_url
  edit_source_url-Permitted none m m' h = unchanged c h
  edit_source_url-Permitted (some v) m m' h =
      of_details c (ground arith) (ground arith) (ground arith) (ground arith) (ground arith)
        (ground arith) (ground arith) (ground arith) (ground arith)

  pub edit_wiki_url-Permitted :
      (v : Option (Option String)) (m m' : ModRow) → edit_wiki_url c v m ≡ ok m' → Permitted c m m'
  unfolding edit_wiki_url
  edit_wiki_url-Permitted none m m' h = unchanged c h
  edit_wiki_url-Permitted (some v) m m' h =
      of_details c (ground arith) (ground arith) (ground arith) (ground arith) (ground arith)
        (ground arith) (ground arith) (ground arith) (ground arith)

  pub edit_license_url-Permitted :
      (v : Option (Option String)) (m m' : ModRow)
      → edit_license_url c v m ≡ ok m'
      → Permitted c m m'
  unfolding edit_license_url
  edit_license_url-Permitted none m m' h = unchanged c h
  edit_license_url-Permitted (some v) m m' h =
      of_details c (ground arith) (ground arith) (ground arith) (ground arith) (ground arith)
        (ground arith) (ground arith) (ground arith) (ground arith)

  pub edit_discord_url-Permitted :
      (v : Option (Option String)) (m m' : ModRow)
      → edit_discord_url c v m ≡ ok m'
      → Permitted c m m'
  unfolding edit_discord_url
  edit_discord_url-Permitted none m m' h = unchanged c h
  edit_discord_url-Permitted (some v) m m' h =
      of_details c (ground arith) (ground arith) (ground arith) (ground arith) (ground arith)
        (ground arith) (ground arith) (ground arith) (ground arith)

  pub edit_slug-Permitted :
      (mods : List ModRow) (v : Option String) (m m' : ModRow)
      → edit_slug c mods v m ≡ ok m'
      → Permitted c m m'
  unfolding edit_slug
  edit_slug-Permitted mods none m m' h = unchanged c h
  edit_slug-Permitted mods (some v) m m' h =
      of_details c (ground arith) (ground arith) (ground arith) (ground arith) (ground arith)
        (ground arith) (ground arith) (ground arith) (ground arith)

  pub edit_donation_urls-Permitted :
      (v : Option (List DonationLink)) (m m' : ModRow)
      → edit_donation_urls c v m ≡ ok m'
      → Permitted c m m'
  unfolding edit_donation_urls
  edit_donation_urls-Permitted none m m' h = unchanged c h
  edit_donation_urls-Permitted (some v) m m' h = elim (Result-cases (insert_donations c v [])) [
    | inr (x, e) ↦ absurd (ground arith)
    | inl (rows, e) ↦
        of_details c (ground arith) (ground arith) (ground arith) (ground arith) (ground arith)
          (ground arith) (ground arith) (ground arith) (ground arith)
  ]

  pub edit_categories-Permitted :
      (v : Option (List String)) (m m' : ModRow) → edit_categories c v m ≡ ok m' → Permitted c m m'
  unfolding edit_categories
  edit_categories-Permitted none m m' h = unchanged c h
  edit_categories-Permitted (some v) m m' h =
      elim (Result-cases (insert_categories c false v m.categories)) [
        | inr (x, e) ↦ absurd (ground arith)
        | inl (rows, e) ↦
            of_details c (ground arith) (ground arith) (ground arith) (ground arith) (ground arith)
              (ground arith) (ground arith) (ground arith) (ground arith)
      ]

  pub edit_additional_categories-Permitted :
      (v : Option (List String)) (m m' : ModRow)
      → edit_additional_categories c v m ≡ ok m'
      → Permitted c m m'
  unfolding edit_additional_categories
  edit_additional_categories-Permitted none m m' h = unchanged c h
  edit_additional_categories-Permitted (some v) m m' h =
      elim (Result-cases (insert_categories c true v m.categories)) [
        | inr (x, e) ↦ absurd (ground arith)
        | inl (rows, e) ↦
            of_details c (ground arith) (ground arith) (ground arith) (ground arith) (ground arith)
              (ground arith) (ground arith) (ground arith) (ground arith)
      ]
