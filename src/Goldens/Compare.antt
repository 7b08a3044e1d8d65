-- ===== src/Goldens/Compare.antt =====
-- `compare_golden` and `_make_size_mismatch_png` of goldens/golden_diff.py.
pub mod Laws
use vanpilot.Prelude.{
  ℕ, ◌+◌, ◌*◌, ◌/◌, Bool, true, false, Option, none, some, List, [], ◌∷◌, ltb, ◌&&◌, ◌||◌, not,
  ◌==◌, nat_eq, if◌then◌else◌,
}
use vanpilot.Prelude.Int.{ℤ, pos, negsuc, ◌-ℤ◌}
use vanpilot.Exec.{Result, ok, err, index_error}
use vanpilot.Exec.Fallible.{◌>>=◌}
use vanpilot.Goldens.Filter.{Bytes, abs}
use vanpilot.Goldens.Png.{Zlib, Pixel, Image, read_png_pixels, make_png, make_png_from_pixels}

-- `n > tolerance`, for an `n` that is not negative
abbrev pub exceeds : ℕ → ℤ → Bool
exceeds n (pos t) = ltb t n
exceeds n (negsuc t) = true

-- `abs(a - g) > tolerance`
unfoldable pub is_off : ℤ → ℕ → ℕ → Bool
is_off tolerance a g = exceeds (abs (pos a -ℤ pos g)) tolerance

unfoldable pub differs : ℤ → Pixel → Pixel → Bool
unfolding is_off
differs tolerance a g =
    is_off tolerance a.red g.red
    || is_off tolerance a.green g.green
    || is_off tolerance a.blue g.blue

abbrev pub red_pixel : Pixel
red_pixel = record { red = 255; green = 0; blue = 0 }

-- `(ar // 3, ag // 3, ab // 3)`
abbrev pub dim : Pixel → Pixel
dim p = record { red = p.red / 3; green = p.green / 3; blue = p.blue / 3 }

-- the loop over the pixels: how many differ, and the pixels of the diff image
unfoldable pub diff_pixels : ℤ → List Pixel → List Pixel → Result (ℕ × List Pixel)
unfolding differs
diff_pixels tolerance [] gs = ok (0, [])
diff_pixels tolerance (a ∷ as_) [] = err index_error
diff_pixels tolerance (a ∷ as_) (g ∷ gs) = do
  (count, ps) ← diff_pixels tolerance as_ gs
  if differs tolerance a g then ok (count + 1, red_pixel ∷ ps) else ok (count, dim a ∷ ps)

-- `(match, diff_count, diff_png)`
abbrev pub Verdict : Type 0
Verdict = Bool × ℕ × Option Bytes

abbrev pub matched : Result Verdict
matched = ok (true, 0, none)

abbrev pub mismatched : ℕ → Bytes → Result Verdict
mismatched count diff = ok (false, count, some diff)

-- what follows the test of the sizes
unfoldable pub compare_pixels : Zlib → Image → Image → ℤ → Result Verdict
unfolding diff_pixels
compare_pixels z a g tolerance = do
  (count, ps) ← diff_pixels tolerance a.pixels g.pixels
  if count == 0
      then matched
      else (do diff ← make_png_from_pixels z a.width a.height ps; mismatched count diff)

unfoldable pub compare_images : Zlib → Image → Image → ℤ → Result Verdict
unfolding compare_pixels
compare_images z a g tolerance =
    if not (a.width == g.width) || not (a.height == g.height)
    then (do diff ← make_png z 100 50 red_pixel; mismatched (a.width * a.height) diff)
    else compare_pixels z a g tolerance

-- `compare_golden`
unfoldable pub compare_golden : Zlib → Bytes → Bytes → ℤ → Result Verdict
unfolding compare_images
compare_golden z actual_png golden_png tolerance = do
  a ← read_png_pixels z actual_png
  g ← read_png_pixels z golden_png
  compare_images z a g tolerance
