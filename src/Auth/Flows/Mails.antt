-- ===== src/Auth/Flows/Mails.antt =====
-- Mails of src/auth/flows.rs and src/auth/email/mod.rs.
use labrinth.Base.{String, Option, none, some, ◌∷◌, if◌then◌else◌, ok, err}
use labrinth.Auth.Flows.{Mail, Env, Action, some_or, ◌>>=◌}

module _ {E Decimal : Type 0} (failure : E) (env : Env Decimal) where
  -- `send_email`
  unfoldable pub send_email :
      String → String → Option (String × String × String) → Action E (Unit {0})
  send_email to title button o =
      let sent : Mail = record { to = to; email_title = title; button = button } in
      if env.send_email_raw sent
      then (ok tt, record o { mails = sent ∷ o.mails })
      else (err failure, o)

  -- `if let Some(email) = user.email { send_email(..)?; }`
  abbrev pub notify : Option String → String → Action E (Unit {0})
  notify none title o = (ok tt, o)
  notify (some email) title o = send_email email title none o

  unfoldable pub send_email_verify : String → String → Action E (Unit {0})
  unfolding send_email
  send_email_verify email flow = do
    site ← some_or env.site_url failure
    path ← some_or env.site_verify_email_path failure
    send_email email "Verify your email" (some (site, path, flow))
