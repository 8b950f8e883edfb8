-- ===== src/Examples/Images.antt =====
-- An image of project 9 that the new description links to.
use labrinth.Base.{ℕ, none, some, List, [], ◌∷◌}
use labrinth.Ids.{codes}
use labrinth.Images.{ImageContext, ImageRow}

abbrev image : ImageRow
image = record {
  id = 4;
  url = codes "i.png";
  context = "project";
  mod_id = some 9;
  version_id = none;
  thread_message_id = none;
  report_id = none;
}

abbrev of_nine : ImageContext
of_nine = ImageContext.project (some 9)

abbrev texts : List (List ℕ)
texts = codes "See i.png" ∷ []
