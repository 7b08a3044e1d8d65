-- ===== src/Goldens/Pane.antt =====
-- `crop_to_app_pane` and `mask_status_bar` of goldens/golden_diff.py.
pub mod Laws
use vanpilot.Prelude.{
  ℕ, zero, suc, ◌+◌, ◌-◌, ◌*◌, Bool, Option, none, some, List, [], ◌∷◌, ◌++◌, ltb, leb, length,
  get_elem?, if◌then◌else◌,
}
use vanpilot.Prelude.Int.{ℤ, pos, negsuc, pos_part}
use vanpilot.Exec.{Result, ok, err, index_error}
use vanpilot.Exec.Fallible.{◌>>=◌, require}
use vanpilot.Goldens.Filter.{Bytes}
use vanpilot.Goldens.Png.{Zlib, Pixel, Image, read_png_pixels, make_png_from_pixels}

abbrev pub min : ℕ → ℕ → ℕ
min a b = if leb a b then a else b

abbrev pub max : ℕ → ℕ → ℕ
max a b = if leb a b then b else a

-- `max(low, min(v, high))`, for a `low` that is not negative
abbrev pub clamp : ℕ → ℤ → ℕ → ℕ
clamp low (pos v) high = max low (min v high)
clamp low (negsuc v) high = low

-- the rectangle after its edges are held inside the image
pub record Pane : Type 0 where
  pub left : ℕ
  pub top : ℕ
  pub right : ℕ
  pub bottom : ℕ

unfoldable pub pane_in : ℕ → ℕ → ℤ → ℤ → ℤ → ℤ → Pane
pane_in w h left top right bottom =
    let l = clamp 0 left w in
    let t = clamp 0 top h in
    record { left = l; top = t; right = clamp l right w; bottom = clamp t bottom h }

-- the inner loop: `n` pixels from the index `i` on
unfoldable pub pixels_from : ℕ → ℕ → List Pixel → Result (List Pixel)
pixels_from zero i pixels = ok []
pixels_from (suc n) i pixels = require index_error (get_elem? pixels i) >>= λ p.
    pixels_from n (i + 1) pixels >>= λ ps. ok (p ∷ ps)

-- the outer loop: `n` rows from `y` on
unfoldable pub rows_from : ℕ → ℕ → ℕ → ℕ → ℕ → List Pixel → Result (List Pixel)
unfolding pixels_from
rows_from zero y width left count pixels = ok []
rows_from (suc n) y width left count pixels = pixels_from count (y * width + left) pixels >>= λ row.
    rows_from n (y + 1) width left count pixels >>= λ rest. ok (row ++ rest)

unfoldable pub crop_image : Image → Pane → Result Image
unfolding rows_from
crop_image image p =
    let w = p.right - p.left in
    let h = p.bottom - p.top in
    rows_from h p.top image.width p.left w image.pixels >>= λ ps.
    ok (record { width = w; height = h; pixels = ps })

-- `crop_to_app_pane`
unfoldable pub crop_to_app_pane : Zlib → Bytes → ℤ → ℤ → ℤ → ℤ → Result Bytes
unfolding crop_image pane_in
crop_to_app_pane z png left top right bottom = do
  image ← read_png_pixels z png
  cropped ← crop_image image (pane_in image.width image.height left top right bottom)
  make_png_from_pixels z cropped.width cropped.height cropped.pixels

abbrev pub hot_pink : Pixel
hot_pink = record { red = 255; green = 0; blue = 255 }

-- the loop that paints the first `n` pixels, as far as there are any
unfoldable pub paint : ℕ → List Pixel → List Pixel
paint zero ps = ps
paint (suc n) [] = []
paint (suc n) (p ∷ ps) = hot_pink ∷ paint n ps

-- `mask_status_bar`
unfoldable pub mask_status_bar : Zlib → Bytes → ℤ → Result Bytes
unfolding paint
mask_status_bar z png rows = do
  image ← read_png_pixels z png
  make_png_from_pixels z image.width image.height (paint (pos_part rows * image.width) image.pixels)
