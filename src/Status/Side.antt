-- ===== src/Status/Side.antt =====
-- `SideType` of src/models/projects.rs.
use labrinth.Base.{String, str_eq, if◌then◌else◌}

pub data SideType : Type 0 where
  required optional unsupported unknown : SideType

unfoldable pub from_str : String → SideType
from_str string =
    if str_eq string "required"
    then required
    else if str_eq string "optional"
    then optional
    else if str_eq string "unsupported"
    then unsupported
    else unknown

unfoldable pub as_str : SideType → String
as_str required = "required"
as_str optional = "optional"
as_str unsupported = "unsupported"
as_str unknown = "unknown"
