-- ===== src/Goldens/Pane/Laws.antt =====
-- Which pixels the cropped and the masked screenshots have.
use vanpilot.Prelude.{
  ℕ, zero, suc, ◌+◌, ◌-◌, ◌*◌, ◌≤◌, ◌<◌, ◌≡◌, refl, sym, ap, ◌∙◌, some, List, [], ◌∷◌, ◌++◌, arith,
  ltb, length, length-append, Bool-cases, inl, inr, get_elem?, if◌then◌else◌,
}
use vanpilot.Prelude.Int.{ℤ, pos, negsuc, ◌≤ℤ◌}
use vanpilot.Exec.{ok}
use vanpilot.Goldens.Filter.{Bytes}
use vanpilot.Goldens.Png.{Zlib, Pixel, Image, read_png_pixels, make_png_from_pixels}
use vanpilot.Goldens.Png.Length.{length-read_png_pixels}
use vanpilot.Goldens.Pane.{
  clamp, Pane, pane_in, pixels_from, rows_from, crop_image, crop_to_app_pane, hot_pink, paint,
  mask_status_bar,
}

none_below : (i : ℕ) → i < 0 → ⊥
none_below i h = omega (arith, h)

at_index : (ps : List Pixel) (i j : ℕ) → i ≡ j → get_elem? ps i ≡ get_elem? ps j
at_index ps i j e = ap (get_elem? ps) e

get_elem?_lt : (ps : List Pixel) (i : ℕ) → i < length ps → (p : Pixel) × (get_elem? ps i ≡ some p)
get_elem?_lt [] i h = elim (none_below i h) [ ]
get_elem?_lt (p ∷ ps) zero h = (p, refl)
get_elem?_lt (p ∷ ps) (suc i) h = get_elem?_lt ps i (omega (arith, h))

get_elem?_append_left :
    (xs ys : List Pixel) (i : ℕ) → i < length xs → get_elem? (xs ++ ys) i ≡ get_elem? xs i
get_elem?_append_left [] ys i h = elim (none_below i h) [ ]
get_elem?_append_left (x ∷ xs) ys zero h = refl
get_elem?_append_left (x ∷ xs) ys (suc i) h = get_elem?_append_left xs ys i (omega (arith, h))

get_elem?_append_right :
    (xs ys : List Pixel) (i : ℕ) → get_elem? (xs ++ ys) (length xs + i) ≡ get_elem? ys i
get_elem?_append_right [] ys i = ap (get_elem? ys) (omega arith)
get_elem?_append_right (x ∷ xs) ys i =
    at_index (x ∷ (xs ++ ys)) (length (x ∷ xs) + i) (suc (length xs + i)) (omega arith)
    ∙ get_elem?_append_right xs ys i

-- A run of pixels, read from the index `i` on.
record IsRun (n i : ℕ) (pixels row : List Pixel) : Type 0 where
  counted : length row ≡ n
  same : (x : ℕ) → x < n → get_elem? row x ≡ get_elem? pixels (i + x)

IsRun-cons :
    (n i : ℕ) (p : Pixel) (pixels row : List Pixel)
    → get_elem? pixels i ≡ some p
    → IsRun n (i + 1) pixels row
    → IsRun (suc n) i pixels (p ∷ row)
IsRun-cons n i p pixels row e run = record { counted = omega (arith, run.counted); same = same }
  where
    same : (x : ℕ) → x < suc n → get_elem? (p ∷ row) x ≡ get_elem? pixels (i + x)
    same zero lt = sym e ∙ ap (get_elem? pixels) (omega arith)
    same (suc x) lt = run.same x (omega (arith, lt)) ∙ ap (get_elem? pixels) (omega arith)

pixels_from_lem :
    (n i : ℕ) (pixels : List Pixel)
    → i + n ≤ length pixels
    → (row : List Pixel) × (pixels_from n i pixels ≡ ok row) × IsRun n i pixels row
unfolding pixels_from
pixels_from_lem zero i pixels h =
    ([], refl, record { counted = refl; same = λ x lt. elim (none_below x lt) [ ] })
pixels_from_lem (suc n) i pixels h =
    let (p, e) = get_elem?_lt pixels i (omega (arith, h)) in
    let (row, e', run) = pixels_from_lem n (i + 1) pixels (omega (arith, h)) in
    (p ∷ row, rw (e, e') refl, IsRun-cons n i p pixels row e run)

-- `n` rows of `count` pixels each, from the row `y` on.
pub record IsBlock (n y width left count : ℕ) (pixels out : List Pixel) : Type 0 where
  pub counted : length out ≡ n * count
  pub same :
      (j x : ℕ)
      → j < n
      → x < count
      → get_elem? out (j * count + x) ≡ get_elem? pixels ((y + j) * width + left + x)

IsBlock-cons :
    (n y width left count : ℕ) (pixels row rest : List Pixel)
    → IsRun count (y * width + left) pixels row
    → IsBlock n (y + 1) width left count pixels rest
    → IsBlock (suc n) y width left count pixels (row ++ rest)
IsBlock-cons n y width left count pixels row rest run block = record {
  counted = omega (arith, run.counted, block.counted, length-append row rest);
  same = same;
}
  where
    same :
        (j x : ℕ)
        → j < suc n
        → x < count
        → get_elem? (row ++ rest) (j * count + x) ≡ get_elem? pixels ((y + j) * width + left + x)
    same zero x lt in_row =
        at_index (row ++ rest) (0 * count + x) x (omega arith)
        ∙ get_elem?_append_left row rest x (omega (arith, run.counted, in_row))
        ∙ run.same x in_row
        ∙ ap (get_elem? pixels) (omega arith)
    same (suc j) x lt in_row =
        ap (get_elem? (row ++ rest)) (omega (arith, run.counted))
        ∙ get_elem?_append_right row rest (j * count + x)
        ∙ block.same j x (omega (arith, lt)) in_row
        ∙ ap (get_elem? pixels) (omega arith)

rows_from_lem :
    (n y width left count : ℕ) (pixels : List Pixel)
    → left + count ≤ width
    → (y + n) * width ≤ length pixels
    → (out : List Pixel) × (rows_from n y width left count pixels ≡ ok out)
      × IsBlock n y width left count pixels out
unfolding rows_from
rows_from_lem zero y width left count pixels fits whole =
    ([], refl, record { counted = omega arith; same = λ j x lt in_row. elim (none_below j lt) [ ] })
rows_from_lem (suc n) y width left count pixels fits whole =
    let (row, e, run) =
      pixels_from_lem count (y * width + left) pixels (omega (arith, fits, whole)) in
    let (rest, e', block) =
      rows_from_lem n (y + 1) width left count pixels fits (omega (arith, whole)) in
    (row ++ rest, rw (e, e') refl, IsBlock-cons n y width left count pixels row rest run block)

clamp_range :
    (low high : ℕ) (v : ℤ) → low ≤ high → (low ≤ clamp low v high) × (clamp low v high ≤ high)
clamp_range low high (pos v) h = (ground (arith, h), ground (arith, h))
clamp_range low high (negsuc v) h = (ground (arith, h), h)

-- `r` is the number from `low` to `high` that is nearest to `v`.
pub record IsNearest (low high : ℕ) (v : ℤ) (r : ℕ) : Type 0 where
  pub from_low : low ≤ r
  pub to_high : r ≤ high
  pub inside : pos low ≤ℤ v → v ≤ℤ pos high → v ≡ pos r
  pub below : v ≤ℤ pos low → r ≡ low
  pub above : pos high ≤ℤ v → r ≡ high

clamp-IsNearest : (low high : ℕ) (v : ℤ) → low ≤ high → IsNearest low high v (clamp low v high)
clamp-IsNearest low high (pos v) h = record {
  from_low = ground (arith, h);
  to_high = ground (arith, h);
  inside = λ a b. ap pos (ground (arith, h, a, b));
  below = λ a. ground (arith, h, a);
  above = λ a. ground (arith, h, a);
}
clamp-IsNearest low high (negsuc v) h = record {
  from_low = omega arith;
  to_high = h;
  inside = λ a b. absurd (omega (arith, a));
  below = λ a. refl;
  above = λ a. absurd (omega (arith, a));
}

-- The rectangle that is asked for, its edges held to the image, and the right and the lower ones
-- to the left and the upper ones.
pub record IsHeld (image : Image) (left top right bottom : ℤ) (p : Pane) : Type 0 where
  pub left_edge : IsNearest 0 image.width left p.left
  pub top_edge : IsNearest 0 image.height top p.top
  pub right_edge : IsNearest p.left image.width right p.right
  pub bottom_edge : IsNearest p.top image.height bottom p.bottom

pane_in-IsHeld :
    (image : Image) (left top right bottom : ℤ)
    → IsHeld image left top right bottom (pane_in image.width image.height left top right bottom)
unfolding pane_in
pane_in-IsHeld image left top right bottom =
    let l = clamp-IsNearest 0 image.width left (omega arith) in
    let t = clamp-IsNearest 0 image.height top (omega arith) in
    record {
      left_edge = l;
      top_edge = t;
      right_edge = clamp-IsNearest (clamp 0 left image.width) image.width right l.to_high;
      bottom_edge = clamp-IsNearest (clamp 0 top image.height) image.height bottom t.to_high;
    }

-- A rectangle that lies inside an image.
pub record IsInside (image : Image) (p : Pane) : Type 0 where
  pub across : p.left ≤ p.right
  pub wide : p.right ≤ image.width
  pub down : p.top ≤ p.bottom
  pub high : p.bottom ≤ image.height

pane_in-IsInside :
    (image : Image) (left top right bottom : ℤ)
    → IsInside image (pane_in image.width image.height left top right bottom)
unfolding pane_in
pane_in-IsInside image left top right bottom =
    let (_, l) = clamp_range 0 image.width left (omega arith) in
    let (_, t) = clamp_range 0 image.height top (omega arith) in
    let (across, wide) = clamp_range (clamp 0 left image.width) image.width right l in
    let (down, high) = clamp_range (clamp 0 top image.height) image.height bottom t in
    record { across = across; wide = wide; down = down; high = high }

-- The pixels of an image inside a rectangle.
pub record IsCrop (image : Image) (p : Pane) (out : List Pixel) : Type 0 where
  pub counted : length out ≡ (p.bottom - p.top) * (p.right - p.left)
  pub same :
      (x y : ℕ)
      → x < p.right - p.left
      → y < p.bottom - p.top
      → get_elem? out (y * (p.right - p.left) + x)
        ≡ get_elem? image.pixels ((p.top + y) * image.width + p.left + x)

product_gap : (a b width : ℕ) → a ≤ b → a * width ≤ b * width
product_gap a b width h =
    let e : b ≡ a + (b - a) = omega (arith, h) in omega (arith, ap (λ (n : ℕ). n * width) e)

crop_image-IsCrop :
    (image : Image) (p : Pane)
    → length image.pixels ≡ image.height * image.width
    → IsInside image p
    → (out : List Pixel) × (crop_image image p
        ≡ ok (record { width = p.right - p.left; height = p.bottom - p.top; pixels = out }))
      × IsCrop image p out
unfolding crop_image
crop_image-IsCrop image p whole inside =
    let w = p.right - p.left in
    let h = p.bottom - p.top in
    let rows =
      product_gap (p.top + h) image.height image.width (omega (arith, inside.down, inside.high)) in
    let (out, e, block) =
      rows_from_lem h p.top image.width p.left w image.pixels
        (omega (arith, inside.across, inside.wide)) (omega (arith, whole, rows)) in
    (out, rw e refl, record { counted = block.counted; same = λ x y lx ly. block.same y x ly lx })

-- For a PNG file that can be read and any four edges, there is a rectangle inside the image of
-- which each edge is the number nearest to the requested one within the image, the right not
-- before the left and the bottom not above the top, and `crop_to_app_pane` returns or raises
-- what `_make_png_from_pixels` does for exactly the pixels of that rectangle, in their places;
-- the loops never run past the pixels.
pub crop_to_app_pane-IsCrop :
    (z : Zlib) (png : Bytes) (image : Image) (left top right bottom : ℤ)
    → read_png_pixels z png ≡ ok image
    → (p : Pane) × (out : List Pixel) × IsHeld image left top right bottom p
      × IsInside image p
      × (crop_to_app_pane z png left top right bottom
          ≡ make_png_from_pixels z (p.right - p.left) (p.bottom - p.top) out)
      × IsCrop image p out
unfolding crop_to_app_pane
crop_to_app_pane-IsCrop z png image left top right bottom read =
    let inside = pane_in-IsInside image left top right bottom in
    let whole = length-read_png_pixels z png image read in
    let p = pane_in image.width image.height left top right bottom in
    let (out, e, crop) = crop_image-IsCrop image p whole inside in
    (p, out, pane_in-IsHeld image left top right bottom, inside, rw (read, e) refl, crop)

length-paint : (n : ℕ) (ps : List Pixel) → length (paint n ps) ≡ length ps
unfolding paint
length-paint zero ps = refl
length-paint (suc n) [] = refl
length-paint (suc n) (p ∷ ps) = ap suc (length-paint n ps)

get_elem?-paint :
    (n : ℕ) (ps : List Pixel) (i : ℕ)
    → i < length ps
    → get_elem? (paint n ps) i ≡ (if ltb i n then some hot_pink else get_elem? ps i)
unfolding paint
get_elem?-paint zero ps i h = ground (arith, h)
get_elem?-paint (suc n) [] i h = elim (none_below i h) [ ]
get_elem?-paint (suc n) (p ∷ ps) zero h = ground arith
get_elem?-paint (suc n) (p ∷ ps) (suc i) h =
    let ih = get_elem?-paint n ps i (omega (arith, h)) in ground (arith, ih)

in_painted : (rows width x y : ℕ) → x < width → ltb (y * width + x) (rows * width) ≡ ltb y rows
in_painted rows width x y h = elim (Bool-cases (ltb y rows)) [
  | inl e ↦
      let gap = product_gap (suc y) rows width (ground (arith, e)) in rw e (ground (arith, gap))
  | inr e ↦ let gap = product_gap rows y width (ground (arith, e)) in rw e (ground (arith, gap))
]

-- The first rows are painted, and the others are as they were.
pub record IsMasked (rows : ℕ) (image : Image) (out : List Pixel) : Type 0 where
  pub counted : length out ≡ length image.pixels
  pub painted :
      (x y : ℕ)
      → x < image.width
      → y < image.height
      → get_elem? out (y * image.width + x)
        ≡ (if ltb y rows then some hot_pink else get_elem? image.pixels (y * image.width + x))

-- For a PNG file that can be read and a number of rows that is not negative, `mask_status_bar`
-- returns or raises what `_make_png_from_pixels` does for an image of the same size whose first
-- rows, as many as asked for, are hot pink and whose other pixels are as they were.
pub mask_status_bar-IsMasked :
    (z : Zlib) (png : Bytes) (image : Image) (rows : ℕ)
    → read_png_pixels z png ≡ ok image
    → (out : List Pixel) × (mask_status_bar z png (pos rows)
        ≡ make_png_from_pixels z image.width image.height out)
      × IsMasked rows image out
unfolding mask_status_bar
mask_status_bar-IsMasked z png image rows read =
    let whole = length-read_png_pixels z png image read in
    (
      paint (rows * image.width) image.pixels,
      rw read refl,
      record {
        counted = length-paint (rows * image.width) image.pixels;
        painted = λ x y lx ly.
            let gap = product_gap (suc y) image.height image.width ly in
            get_elem?-paint (rows * image.width) image.pixels (y * image.width + x)
              (omega (arith, gap, whole, lx))
            ∙ rw (in_painted rows image.width x y lx) refl;
      },
    )
