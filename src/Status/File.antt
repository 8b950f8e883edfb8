-- ===== src/Status/File.antt =====
-- `FileType` of src/models/projects.rs.
use labrinth.Base.{String, str_eq, if◌then◌else◌}

pub data FileType : Type 0 where
  required_resource_pack optional_resource_pack unknown : FileType

unfoldable pub from_str : String → FileType
from_str string =
    if str_eq string "required-resource-pack"
    then required_resource_pack
    else if str_eq string "optional-resource-pack"
    then optional_resource_pack
    else if str_eq string "unknown"
    then unknown
    else unknown

unfoldable pub as_str : FileType → String
as_str required_resource_pack = "required-resource-pack"
as_str optional_resource_pack = "optional-resource-pack"
as_str unknown = "unknown"
