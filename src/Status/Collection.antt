-- ===== src/Status/Collection.antt =====
-- `CollectionStatus` of src/models/collections.rs.
use labrinth.Base.{Bool, true, false, String, str_eq, if◌then◌else◌}

pub data CollectionStatus : Type 0 where
  listed unlisted rejected unknown : CollectionStatus

unfoldable pub from_str : String → CollectionStatus
from_str string =
    if str_eq string "listed"
    then listed
    else if str_eq string "unlisted"
    then unlisted
    else if str_eq string "rejected"
    then rejected
    else unknown

unfoldable pub as_str : CollectionStatus → String
as_str listed = "listed"
as_str unlisted = "unlisted"
as_str rejected = "rejected"
as_str unknown = "unknown"

unfoldable pub is_hidden : CollectionStatus → Bool
is_hidden rejected = true
is_hidden listed = false
is_hidden unlisted = false
is_hidden unknown = false

unfoldable pub is_approved : CollectionStatus → Bool
is_approved listed = true
is_approved unlisted = true
is_approved rejected = false
is_approved unknown = false

unfoldable pub can_be_requested : CollectionStatus → Bool
can_be_requested listed = true
can_be_requested unlisted = true
can_be_requested rejected = false
can_be_requested unknown = false
