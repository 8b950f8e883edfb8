-- ===== src/Status/Storage.antt =====
-- What a status becomes when it is written to the database as text and read back.
use labrinth.Base.{◌≡◌, refl, ◌≢◌, ◌↔◌, false}
use labrinth.Status.Project
use labrinth.Status.Project.{ProjectStatus}
use labrinth.Status.Version
use labrinth.Status.Version.{VersionStatus}
use labrinth.Status.Side
use labrinth.Status.Side.{SideType}
use labrinth.Status.Monetization
use labrinth.Status.Monetization.{MonetizationStatus}
use labrinth.Status.Dependency
use labrinth.Status.Dependency.{DependencyType}
use labrinth.Status.File
use labrinth.Status.File.{FileType}

-- A project status that is written as text and read back is the same exactly if it is not
-- `Scheduled`.
pub project_status_stored_iff :
    (s : ProjectStatus) → (Project.from_str (Project.as_str s) ≡ s) ↔ (s ≢ ProjectStatus.scheduled)
unfolding Project.from_str Project.as_str
project_status_stored_iff ProjectStatus.scheduled = (λ e. cc, λ h. absurd (h refl))
project_status_stored_iff ProjectStatus.approved = (λ e p. cc, λ h. refl)
project_status_stored_iff _ = (λ e p. cc, λ h. refl)

-- Whatever the status, storing it changes neither whether the project is hidden, nor whether
-- it is searchable, nor whether it is approved.
pub project_visibility_stored :
    (s : ProjectStatus)
    → (Project.is_hidden (Project.from_str (Project.as_str s)) ≡ Project.is_hidden s)
      × (Project.is_searchable (Project.from_str (Project.as_str s)) ≡ Project.is_searchable s)
      × (Project.is_approved (Project.from_str (Project.as_str s)) ≡ Project.is_approved s)
unfolding Project.from_str Project.as_str Project.is_hidden Project.is_searchable
    Project.is_approved
project_visibility_stored ProjectStatus.approved = (refl, refl, refl)
project_visibility_stored _ = (refl, refl, refl)

-- A version status that is written as text and read back is the same exactly if it is not
-- `Archived`.
pub version_status_stored_iff :
    (s : VersionStatus) → (Version.from_str (Version.as_str s) ≡ s) ↔ (s ≢ VersionStatus.archived)
unfolding Version.from_str Version.as_str
version_status_stored_iff VersionStatus.archived = (λ e. cc, λ h. absurd (h refl))
version_status_stored_iff VersionStatus.listed = (λ e p. cc, λ h. refl)
version_status_stored_iff _ = (λ e p. cc, λ h. refl)

-- A version that everybody may see stays visible when its status is stored, exactly if it is not
-- archived: an archived version becomes hidden.
pub version_hidden_stored_iff :
    (s : VersionStatus)
    → Version.is_hidden s ≡ false
    → (Version.is_hidden (Version.from_str (Version.as_str s)) ≡ false)
      ↔ (s ≢ VersionStatus.archived)
unfolding Version.from_str Version.as_str Version.is_hidden
version_hidden_stored_iff VersionStatus.archived v = (λ e. cc, λ h. absurd (h refl))
version_hidden_stored_iff VersionStatus.listed v = (λ e p. cc, λ h. refl)
version_hidden_stored_iff VersionStatus.unlisted v = (λ e p. cc, λ h. refl)
version_hidden_stored_iff _ v = (λ e p. cc, λ h. cc)

side_stored : (x : SideType) → Side.from_str (Side.as_str x) ≡ x
unfolding Side.from_str Side.as_str
side_stored SideType.required = refl
side_stored _ = refl

money_stored : (x : MonetizationStatus) → Monetization.from_str (Monetization.as_str x) ≡ x
unfolding Monetization.from_str Monetization.as_str
money_stored MonetizationStatus.monetized = refl
money_stored _ = refl

dependency_stored : (x : DependencyType) → Dependency.from_str (Dependency.as_str x) ≡ x
unfolding Dependency.from_str Dependency.as_str
dependency_stored DependencyType.required = refl
dependency_stored _ = refl

file_stored : (x : FileType) → File.from_str (File.as_str x) ≡ x
unfolding File.from_str File.as_str
file_stored FileType.unknown = refl
file_stored _ = refl

-- The other enumerations of a project and of a version survive storage as they are.
pub enums_stored :
    (side : SideType) (money : MonetizationStatus) (dependency : DependencyType) (file : FileType)
    → (Side.from_str (Side.as_str side) ≡ side)
      × (Monetization.from_str (Monetization.as_str money) ≡ money)
      × (Dependency.from_str (Dependency.as_str dependency) ≡ dependency)
      × (File.from_str (File.as_str file) ≡ file)
enums_stored side money dependency file =
    (side_stored side, money_stored money, dependency_stored dependency, file_stored file)
