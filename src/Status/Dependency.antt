-- ===== src/Status/Dependency.antt =====
-- `DependencyType` of src/models/projects.rs.
use labrinth.Base.{String, str_eq, if◌then◌else◌}

pub data DependencyType : Type 0 where
  required optional incompatible embedded : DependencyType

unfoldable pub from_str : String → DependencyType
from_str string =
    if str_eq string "required"
    then required
    else if str_eq string "optional"
    then optional
    else if str_eq string "incompatible"
    then incompatible
    else if str_eq string "embedded"
    then embedded
    else required

unfoldable pub as_str : DependencyType → String
as_str required = "required"
as_str optional = "optional"
as_str incompatible = "incompatible"
as_str embedded = "embedded"
