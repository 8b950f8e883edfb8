-- ===== src/Status/Project.antt =====
-- `ProjectStatus` of src/models/projects.rs.
use labrinth.Base.{Bool, true, false, String, str_eq, if◌then◌else◌, List, [], ◌∷◌}

pub data ProjectStatus : Type 0 where
  approved archived rejected draft unlisted processing withheld scheduled private unknown :
      ProjectStatus

unfoldable pub from_str : String → ProjectStatus
from_str string =
    if str_eq string "processing"
    then processing
    else if str_eq string "rejected"
    then rejected
    else if str_eq string "approved"
    then approved
    else if str_eq string "draft"
    then draft
    else if str_eq string "unlisted"
    then unlisted
    else if str_eq string "archived"
    then archived
    else if str_eq string "withheld"
    then withheld
    else if str_eq string "private"
    then private
    else unknown

unfoldable pub as_str : ProjectStatus → String
as_str approved = "approved"
as_str rejected = "rejected"
as_str draft = "draft"
as_str unlisted = "unlisted"
as_str processing = "processing"
as_str unknown = "unknown"
as_str archived = "archived"
as_str withheld = "withheld"
as_str scheduled = "scheduled"
as_str private = "private"

unfoldable pub as_friendly_str : ProjectStatus → String
as_friendly_str approved = "Listed"
as_friendly_str rejected = "Rejected"
as_friendly_str draft = "Draft"
as_friendly_str unlisted = "Unlisted"
as_friendly_str processing = "Under review"
as_friendly_str unknown = "Unknown"
as_friendly_str archived = "Archived"
as_friendly_str withheld = "Withheld"
as_friendly_str scheduled = "Scheduled"
as_friendly_str private = "Private"

unfoldable pub iterator : List ProjectStatus
iterator =
    approved ∷ archived ∷ rejected ∷ draft ∷ unlisted ∷ processing ∷ withheld ∷ scheduled ∷ private
    ∷ unknown ∷ []

-- Project pages and info cannot be viewed.
unfoldable pub is_hidden : ProjectStatus → Bool
is_hidden rejected = true
is_hidden draft = true
is_hidden processing = true
is_hidden unknown = true
is_hidden scheduled = true
is_hidden private = true
is_hidden approved = false
is_hidden unlisted = false
is_hidden archived = false
is_hidden withheld = false

-- The project can be displayed in search.
unfoldable pub is_searchable : ProjectStatus → Bool
is_searchable approved = true
is_searchable archived = true
is_searchable _ = false

-- Approved by moderators.
unfoldable pub is_approved : ProjectStatus → Bool
is_approved approved = true
is_approved archived = true
is_approved unlisted = true
is_approved private = true
is_approved _ = false

-- The status can be requested after moderator approval.
unfoldable pub can_be_requested : ProjectStatus → Bool
can_be_requested approved = true
can_be_requested archived = true
can_be_requested unlisted = true
can_be_requested private = true
can_be_requested draft = true
can_be_requested rejected = false
can_be_requested processing = false
can_be_requested unknown = false
can_be_requested withheld = false
can_be_requested scheduled = false
