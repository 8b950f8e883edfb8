-- ===== src/Status/Version.antt =====
-- `VersionStatus` of src/models/projects.rs.
use labrinth.Base.{Bool, true, false, String, str_eq, if◌then◌else◌, List, [], ◌∷◌}

pub data VersionStatus : Type 0 where
  listed archived draft unlisted scheduled unknown : VersionStatus

unfoldable pub from_str : String → VersionStatus
from_str string =
    if str_eq string "listed"
    then listed
    else if str_eq string "draft"
    then draft
    else if str_eq string "unlisted"
    then unlisted
    else if str_eq string "scheduled"
    then scheduled
    else unknown

unfoldable pub as_str : VersionStatus → String
as_str listed = "listed"
as_str archived = "archived"
as_str draft = "draft"
as_str unlisted = "unlisted"
as_str unknown = "unknown"
as_str scheduled = "scheduled"

unfoldable pub iterator : List VersionStatus
iterator = listed ∷ archived ∷ draft ∷ unlisted ∷ scheduled ∷ unknown ∷ []

-- Version pages and info cannot be viewed.
unfoldable pub is_hidden : VersionStatus → Bool
is_hidden draft = true
is_hidden scheduled = true
is_hidden unknown = true
is_hidden listed = false
is_hidden archived = false
is_hidden unlisted = false

-- The version is listed on its project.
unfoldable pub is_listed : VersionStatus → Bool
is_listed listed = true
is_listed archived = true
is_listed _ = false

unfoldable pub can_be_requested : VersionStatus → Bool
can_be_requested listed = true
can_be_requested archived = true
can_be_requested draft = true
can_be_requested unlisted = true
can_be_requested scheduled = false
can_be_requested unknown = false
