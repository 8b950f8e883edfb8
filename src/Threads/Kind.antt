-- ===== src/Threads/Kind.antt =====
-- `ThreadType` of src/models/threads.rs.
use labrinth.Base.{String, str_eq, if◌then◌else◌}

pub data ThreadType : Type 0 where
  report project direct_message : ThreadType

unfoldable pub from_str : String → ThreadType
from_str string =
    if str_eq string "report"
    then report
    else if str_eq string "project"
    then project
    else if str_eq string "direct_message"
    then direct_message
    else direct_message

unfoldable pub as_str : ThreadType → String
as_str report = "report"
as_str project = "project"
as_str direct_message = "direct_message"
