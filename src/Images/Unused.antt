-- ===== src/Images/Unused.antt =====
-- Which images an edit deletes.
use mathlib.Core.List.{Memᴰ}
use labrinth.Base.{ℕ, ◌≡◌, ◌↔◌, true, not, ◌&&◌, ◌||◌, List, any, arith}
use labrinth.Auth.Access.Retain.{filterb-Memᴰ}
use labrinth.Images.{
  ImageContext, ImageRow, is_contexted, contains_text, is_kept, delete_unused_images,
}

-- The images that stay are those of another place, and those whose URL contains one of the
-- texts.
pub delete_unused_images_iff :
    (context : ImageContext) (references : List (List ℕ)) (images : List ImageRow) (x : ImageRow)
    → Memᴰ x (delete_unused_images context references images) ↔ (
        Memᴰ x images
        × ((not (is_contexted context x)
              || any (λ reference. contains_text x.url reference) references)
            ≡ true))
unfolding delete_unused_images is_kept
delete_unused_images_iff context references images x =
    let (p, q) =
      filterb-Memᴰ
        (λ image. not (
          is_contexted context image
          && not (any (λ reference. contains_text image.url reference) references)))
        x images in
    (λ m. ((p m).0, ground (arith, (p m).1)), λ (m, h). q (m, ground arith))
