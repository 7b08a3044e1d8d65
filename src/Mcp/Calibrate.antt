-- ===== src/Mcp/Calibrate.antt =====
-- mcp/src/calibrate.py: finds the markers of the calibration pattern in a screenshot. PIL decodes
-- the file: an image is its size and `getpixel`, an argument.
pub mod Laws
pub mod Placed
use vanpilot.Prelude.{
  ℕ, zero, suc, ◌+◌, ◌-◌, ◌*◌, ◌/◌, Bool, true, false, ◌||◌, ◌==◌, nat_eq, ltb, leb, round_div,
  quotient, round_at, quotient, round_at, if◌then◌else◌,
}
use vanpilot.Prelude.Int.{ℤ, pos, negsuc, ◌-ℤ◌}
use vanpilot.Exec.{Result, ok, err, value_error, zero_division_error}
use vanpilot.Goldens.Png.{Pixel}

-- an RGB image of PIL
pub record Image : Type 0 where
  pub width : ℕ
  pub height : ℕ
  pub getpixel : ℕ → ℕ → Pixel

-- `RED`, `GREEN`, `BLUE` and `YELLOW`
abbrev pub red : Pixel
red = record { red = 255; green = 0; blue = 0 }

abbrev pub green : Pixel
green = record { red = 0; green = 255; blue = 0 }

abbrev pub blue : Pixel
blue = record { red = 0; green = 0; blue = 255 }

abbrev pub yellow : Pixel
yellow = record { red = 255; green = 255; blue = 0 }

-- `_COLOR_THRESHOLD`
abbrev pub color_threshold : ℕ
color_threshold = 80

-- `(a - b) ** 2`
abbrev pub squared_difference : ℕ → ℕ → ℕ
squared_difference a b = if leb b a then (a - b) * (a - b) else (b - a) * (b - a)

-- `_color_distance(c1, c2) < _COLOR_THRESHOLD`, with both sides squared
unfoldable pub is_near : Pixel → Pixel → Bool
is_near c1 c2 =
    ltb
      (squared_difference c1.red c2.red
        + squared_difference c1.green c2.green
        + squared_difference c1.blue c2.blue)
      (color_threshold * color_threshold)

-- the variables of `_find_marker_center`
pub record Box : Type 0 where
  pub min_x : ℕ
  pub min_y : ℕ
  pub max_x : ℕ
  pub max_y : ℕ
  pub found : Bool

-- the body of the inner `if`
unfoldable pub widen : ℕ → ℕ → Box → Box
widen px py b = record {
  min_x = if ltb px b.min_x then px else b.min_x;
  min_y = if ltb py b.min_y then py else b.min_y;
  max_x = if ltb b.max_x px then px else b.max_x;
  max_y = if ltb b.max_y py then py else b.max_y;
  found = true;
}

-- `step`
abbrev pub step : ℕ
step = 2

-- the number of values of `range(0, n, step)`
unfoldable pub samples : ℕ → ℕ
samples n = (n + 1) / step

module _ (img : Image) (target_color : Pixel) where
  unfoldable pub look : ℕ → ℕ → Box → Box
  unfolding widen is_near
  look px py b = if is_near (img.getpixel px py) target_color then widen px py b else b

  -- the first `n` rounds of the inner loop
  unfoldable pub scan_row : ℕ → ℕ → Box → Box
  unfolding look
  scan_row zero py b = b
  scan_row (suc n) py b = look (step * n) py (scan_row n py b)

  -- the first `n` rounds of the outer loop
  unfoldable pub scan_rows : ℕ → Box → Box
  unfolding scan_row samples
  scan_rows zero b = b
  scan_rows (suc n) b = scan_row (samples img.width) (step * n) (scan_rows n b)

  unfoldable pub marker_box : Box
  unfolding scan_rows
  marker_box =
      scan_rows (samples img.height)
        (record { min_x = img.width; min_y = img.height; max_x = 0; max_y = 0; found = false })

  -- `_find_marker_center`
  unfoldable pub find_marker_center : Result (ℕ × ℕ)
  unfolding marker_box
  find_marker_center =
      let b = marker_box in
      if b.found then ok ((b.min_x + b.max_x) / 2, (b.min_y + b.max_y) / 2) else err value_error

-- the dict of `detect_calibration_markers`
pub record Markers : Type 0 where
  pub red_tl : ℕ × ℕ
  pub green_tr : ℕ × ℕ
  pub blue_bl : ℕ × ℕ
  pub yellow_br : ℕ × ℕ

-- `detect_calibration_markers`, on the decoded screenshot
unfoldable pub detect_calibration_markers : Image → Result Markers
unfolding find_marker_center
detect_calibration_markers img = elim (find_marker_center img red) [
  | err e ↦ err e
  | ok tl ↦ elim (find_marker_center img green) [
    | err e ↦ err e
    | ok tr ↦ elim (find_marker_center img blue) [
      | err e ↦ err e
      | ok bl ↦ elim (find_marker_center img yellow) [
        | err e ↦ err e
        | ok br ↦ ok (record { red_tl = tl; green_tr = tr; blue_bl = bl; yellow_br = br })
      ]
    ]
  ]
]

-- `MARKER_SIZE`
abbrev pub marker_size : ℕ
marker_size = 50

abbrev negated : ℕ → ℤ
negated n = pos 0 -ℤ pos n

-- `round((a + b) / 2 - half_marker)`, `round((a + b) / 2 + half_marker)`
unfoldable pub inner_edge : ℕ → ℕ → ℤ
unfolding ◌-ℤ◌ round_div
inner_edge a b =
    if leb marker_size (a + b)
    then pos (round_div (a + b - marker_size) 2)
    else negated (round_div (marker_size - (a + b)) 2)

unfoldable pub outer_edge : ℕ → ℕ → ℤ
unfolding round_div
outer_edge a b = pos (round_div (a + b + marker_size) 2)

-- `round(disp / pat, 4)`, in ten-thousandths
unfoldable pub scale_of : ℤ → ℕ → ℤ
unfolding quotient round_at ◌-ℤ◌
scale_of (pos disp) pat = pos (round_at 10000 (quotient disp pat))
scale_of (negsuc n) pat = negated (round_at 10000 (quotient (suc n) pat))

-- the dict of `compute_transform`, without its constant text; the offsets are `left` and `top`
pub record Transform : Type 0 where
  pub left : ℤ
  pub top : ℤ
  pub right : ℤ
  pub bottom : ℤ
  pub scale_x : ℤ
  pub scale_y : ℤ

-- from the edges on
unfoldable pub transform_of : ℤ → ℤ → ℤ → ℤ → ℕ → ℕ → Result Transform
transform_of left top right bottom pat_w pat_h =
    if pat_w == 0 || pat_h == 0
    then err zero_division_error
    else ok (record {
      left = left;
      top = top;
      right = right;
      bottom = bottom;
      scale_x = scale_of (right -ℤ left) pat_w;
      scale_y = scale_of (bottom -ℤ top) pat_h;
    })

unfoldable pub compute_transform : Markers → ℕ → ℕ → Result Transform
compute_transform m pat_w pat_h =
    transform_of (inner_edge m.red_tl.0 m.blue_bl.0) (inner_edge m.red_tl.1 m.green_tr.1)
      (outer_edge m.green_tr.0 m.yellow_br.0) (outer_edge m.blue_bl.1 m.yellow_br.1) pat_w pat_h
