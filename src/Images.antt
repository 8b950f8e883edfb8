-- ===== src/Images.antt =====
-- Uploaded images: src/models/images.rs, src/database/models/image_item.rs, and the deletion of
-- unused images in src/util/img.rs. A text is the list of its bytes.
pub mod Unused
use labrinth.Base.{
  ℕ, String, Bool, true, false, not, ◌&&◌, ◌||◌, Option, none, some, List, [], ◌∷◌, any, filterb,
  ◌==◌, str_eq, if◌then◌else◌,
}

pub data ImageContext : Type 0 where
  project version thread_message report : (inner_id : Option ℕ) → ImageContext
  unknown : ImageContext

unfoldable pub context_as_str : ImageContext → String
context_as_str (project id) = "project"
context_as_str (version id) = "version"
context_as_str (thread_message id) = "thread_message"
context_as_str (report id) = "report"
context_as_str unknown = "unknown"

-- A row of `uploaded_images`, without its size, time and owner.
pub record ImageRow : Type 0 where
  pub id : ℕ
  pub url : List ℕ
  pub context : String
  pub mod_id : Option ℕ
  pub version_id : Option ℕ
  pub thread_message_id : Option ℕ
  pub report_id : Option ℕ

-- `column = $1 OR ($1 IS NULL AND column IS NULL)`
abbrev pub same_column : Option ℕ → Option ℕ → Bool
same_column none none = true
same_column none (some b) = false
same_column (some a) none = false
same_column (some a) (some b) = a == b

abbrev pub of_project : ImageContext → Option ℕ
of_project (project id) = id
of_project _ = none

abbrev pub of_version : ImageContext → Option ℕ
of_version (version id) = id
of_version _ = none

abbrev pub of_thread_message : ImageContext → Option ℕ
of_thread_message (thread_message id) = id
of_thread_message _ = none

abbrev pub of_report : ImageContext → Option ℕ
of_report (report id) = id
of_report _ = none

-- The `WHERE` of `Image::get_many_contexted`
unfoldable pub is_contexted : ImageContext → ImageRow → Bool
unfolding context_as_str
is_contexted context row =
    str_eq row.context (context_as_str context)
    && same_column row.mod_id (of_project context)
    && same_column row.version_id (of_version context)
    && same_column row.thread_message_id (of_thread_message context)
    && same_column row.report_id (of_report context)

unfoldable pub starts_with : List ℕ → List ℕ → Bool
starts_with text [] = true
starts_with [] (p ∷ prefix) = false
starts_with (c ∷ text) (p ∷ prefix) = c == p && starts_with text prefix

-- `str::contains`
unfoldable pub contains_text : List ℕ → List ℕ → Bool
unfolding starts_with
contains_text [] part = starts_with [] part
contains_text (c ∷ text) part = starts_with (c ∷ text) part || contains_text text part

-- Whether the loop over the texts keeps an image.
unfoldable pub is_kept : List (List ℕ) → ImageRow → Bool
unfolding contains_text
is_kept references image = any (λ reference. contains_text image.url reference) references

unfoldable pub delete_unused_images : ImageContext → List (List ℕ) → List ImageRow → List ImageRow
unfolding is_contexted is_kept
delete_unused_images context references images =
    filterb (λ image. not (is_contexted context image && not (is_kept references image))) images
