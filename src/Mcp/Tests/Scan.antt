-- ===== src/Mcp/Tests/Scan.antt =====
-- A run of the marker scan and of the transform.
use vanpilot.Prelude.{quotient, round_at, ◌≡◌, refl, arith, ◌&&◌, leb, if◌then◌else◌, nat_eq}
use vanpilot.Prelude.Int.{pos}
use vanpilot.Exec.{ok}
use vanpilot.Mcp.Calibrate.{
  Image, red, blue, find_marker_center, marker_box, scan_rows, scan_row, samples, look, widen,
  is_near, compute_transform, scale_of,
}
use vanpilot.Mcp.Calibrate.Laws.{Centers, find_marker_center-Centers}
use vanpilot.Mcp.Calibrate.Placed.{placed, compute_transform-placed}

-- Blue, but for a red rectangle from (3, 2) to (6, 5).
abbrev screenshot : Image
screenshot = record {
  width = 9;
  height = 7;
  getpixel = λ x y. if leb 3 x && leb x 6 && leb 2 y && leb y 5 then red else blue;
}

-- The columns 4 and 6 and the rows 2 and 4 are sampled.
red_center : find_marker_center screenshot red ≡ ok (5, 3)
unfolding find_marker_center marker_box scan_rows scan_row samples look widen is_near
red_center = refl

find_marker_center-Centers_example : Centers screenshot red (find_marker_center screenshot red)
find_marker_center-Centers_example = find_marker_center-Centers screenshot red

-- A pattern of 800 by 480 at twice its size, at (100, 60): the edges are 25 pixels inside.
compute_transform-placed_example :
    compute_transform (placed 100 60 1600 960 50 50) 800 480
    ≡ ok (record {
      left = pos 125;
      top = pos 85;
      right = pos 1675;
      bottom = pos 995;
      scale_x = scale_of (pos 1550) 800;
      scale_y = scale_of (pos 910) 480;
    })
compute_transform-placed_example =
    compute_transform-placed 100 60 1600 960 50 50 800 480 (omega arith) (omega arith) (omega arith)
      (omega arith) (omega arith) (omega arith)

-- The double nearest to 57 / 480 is below 0.11875, which is half way, so it is rounded down.
rounded_scales : (scale_of (pos 57) 480 ≡ pos 1187) × (scale_of (pos 1) 480 ≡ pos 21)
unfolding scale_of quotient round_at
rounded_scales = (refl, refl)
