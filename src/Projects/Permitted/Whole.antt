-- ===== src/Projects/Permitted/Whole.antt =====
-- An edit as a whole.
use labrinth.Base.{◌≡◌, inl, inr, List, Result, ok, arith, Result-cases, ◌>>=◌}
use labrinth.Api.{ApiError}
use labrinth.Projects.{ModRow, EditProject}
use labrinth.Projects.Columns.{Editor}
use labrinth.Projects.Edit.{edit_row}
use labrinth.Projects.Permitted.{Permitted, Permitted-trans}
use labrinth.Projects.Permitted.Details.{
  edit_title-Permitted, edit_description-Permitted, edit_requested_status-Permitted,
  edit_license-Permitted, edit_client_side-Permitted, edit_server_side-Permitted,
  edit_monetization_status-Permitted, edit_issues_url-Permitted, edit_source_url-Permitted,
  edit_wiki_url-Permitted, edit_license_url-Permitted, edit_discord_url-Permitted,
  edit_slug-Permitted, edit_donation_urls-Permitted, edit_categories-Permitted,
  edit_additional_categories-Permitted,
}
use labrinth.Projects.Permitted.Others.{
  clear_categories-Permitted, edit_body-Permitted, edit_moderation_message-Permitted,
  edit_moderation_message_body-Permitted, edit_status-Permitted,
}

module _ {Decimal : Type 0} (c : Editor Decimal) where
  -- One part after another.
  chain :
      {a d : ModRow} {r : Result ApiError ModRow} {f : ModRow → Result ApiError ModRow}
      → ((x : ModRow) → r ≡ ok x → Permitted c a x)
      → ((x : ModRow) → f x ≡ ok d → Permitted c x d)
      → (r >>= f) ≡ ok d
      → Permitted c a d
  chain {a} {d} {r} {f} first rest h = elim (Result-cases r) [
    | inr (x, e) ↦ absurd (ground arith)
    | inl (x, e) ↦ Permitted-trans c (first x e) (rest x (ground arith))
  ]

  pub edit_row-Permitted :
      (mods : List ModRow) (p : EditProject) (m m' : ModRow)
      → edit_row c mods p m ≡ ok m'
      → Permitted c m m'
  unfolding edit_row
  edit_row-Permitted mods p m m' = chain (edit_title-Permitted c p.title m) λ m.
      chain (edit_description-Permitted c p.description m) λ m.
        chain (edit_status-Permitted c p.status m) λ m.
          chain (edit_requested_status-Permitted c p.requested_status m) λ m.
            chain (clear_categories-Permitted c p.categories p.additional_categories m) λ m.
              chain (edit_categories-Permitted c p.categories m) λ m.
                chain (edit_additional_categories-Permitted c p.additional_categories m) λ m.
                  chain (edit_issues_url-Permitted c p.issues_url m) λ m.
                    chain (edit_source_url-Permitted c p.source_url m) λ m.
                      chain (edit_wiki_url-Permitted c p.wiki_url m) λ m.
                        chain (edit_license_url-Permitted c p.license_url m) λ m.
                          chain (edit_discord_url-Permitted c p.discord_url m) λ m.
                            chain (edit_slug-Permitted c mods p.slug m) λ m.
                              chain (edit_client_side-Permitted c p.client_side m) λ m.
                                chain (edit_server_side-Permitted c p.server_side m) λ m.
                                  chain (edit_license-Permitted c p.license_id m) λ m.
                                    chain (edit_donation_urls-Permitted c p.donation_urls m) λ m.
                                      chain
                                        (edit_moderation_message-Permitted c p.moderation_message m)
                                        λ m.
                                          chain
                                            (edit_moderation_message_body-Permitted c
                                              p.moderation_message_body m)
                                            λ m. chain (edit_body-Permitted c p.body m) λ m.
                                              edit_monetization_status-Permitted c
                                                p.monetization_status m m'
