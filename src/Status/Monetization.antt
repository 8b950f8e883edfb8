-- ===== src/Status/Monetization.antt =====
-- `MonetizationStatus` of src/models/projects.rs.
use labrinth.Base.{String, str_eq, if◌then◌else◌}

pub data MonetizationStatus : Type 0 where
  force_demonetized demonetized monetized : MonetizationStatus

unfoldable pub from_str : String → MonetizationStatus
from_str string =
    if str_eq string "force-demonetized"
    then force_demonetized
    else if str_eq string "demonetized"
    then demonetized
    else if str_eq string "monetized"
    then monetized
    else monetized

unfoldable pub as_str : MonetizationStatus → String
as_str force_demonetized = "force-demonetized"
as_str demonetized = "demonetized"
as_str monetized = "monetized"
