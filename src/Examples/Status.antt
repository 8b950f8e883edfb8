-- ===== src/Examples/Status.antt =====
-- Statuses and scopes at concrete inputs.
use labrinth.Base.{◌≡◌, ◌≢◌, ◌↔◌, refl, true, false, All}
use labrinth.Flags.Bits.{bits}
use labrinth.Scopes.{
  restricted, not_restricted, more_restricted, user_delete, pat_create, pat_write, pat_delete,
  session_read, session_delete,
}
use labrinth.Scopes.Restricted.{restricted_iff, not_restricted_overlap}
use labrinth.Status.Version
use labrinth.Status.Version.{VersionStatus}
use labrinth.Status.Storage.{version_hidden_stored_iff}

archived_visible : Version.is_hidden VersionStatus.archived ≡ false
unfolding Version.is_hidden
archived_visible = refl

archived_stored :
    (Version.is_hidden (Version.from_str (Version.as_str VersionStatus.archived)) ≡ false)
    ↔ (VersionStatus.archived ≢ VersionStatus.archived)
archived_stored = version_hidden_stored_iff VersionStatus.archived archived_visible

no_single_scope : (restricted bits user_delete ≡ true) ↔ (
    (bits.contains user_delete pat_create ≡ true)
    × All (λ scope. bits.contains user_delete scope ≡ true) more_restricted)
no_single_scope = restricted_iff bits user_delete

overlap :
    (bits.contains not_restricted pat_write ≡ true)
    × (bits.contains not_restricted pat_delete ≡ true)
    × (bits.contains not_restricted session_read ≡ true)
    × (bits.contains not_restricted session_delete ≡ true)
    × (restricted bits not_restricted ≡ false)
overlap = not_restricted_overlap bits
