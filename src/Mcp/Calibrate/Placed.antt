-- ===== src/Mcp/Calibrate/Placed.antt =====
-- The transform of a pattern that is displayed upright.
use vanpilot.Prelude.{ℕ, ◌+◌, ◌-◌, ◌≤◌, ◌<◌, ◌≡◌, arith, nat_eq, round_div}
use vanpilot.Prelude.Int.{ℤ, pos, ◌-ℤ◌}
use vanpilot.Exec.{ok}
use vanpilot.Mcp.Calibrate.{
  Markers, inner_edge, outer_edge, scale_of, transform_of, compute_transform,
}

-- The centres of the markers of a pattern that fills `w` by `h` pixels from `(x, y)` on, where they
-- stand `a` pixels from the sides and `b` from the top and the bottom.
abbrev pub placed : ℕ → ℕ → ℕ → ℕ → ℕ → ℕ → Markers
placed x y w h a b = record {
  red_tl = (x + a, y + b);
  green_tr = (x + w - a, y + b);
  blue_bl = (x + a, y + h - b);
  yellow_br = (x + w - a, y + h - b);
}

round_half : (n : ℕ) → round_div (n + n) 2 ≡ n
unfolding round_div
round_half n = ground arith

inner_edge_lem : (x a : ℕ) → 25 ≤ a → inner_edge (x + a) (x + a) ≡ pos (x + a - 25)
unfolding inner_edge
inner_edge_lem x a le = ground (arith, round_half (x + a - 25), same x a le)
  where
    same : (x a : ℕ) → 25 ≤ a → x + a + (x + a) - 50 ≡ x + a - 25 + (x + a - 25)
    same x a le = omega (arith, le)

outer_edge_lem : (n : ℕ) → outer_edge n n ≡ pos (n + 25)
unfolding outer_edge
outer_edge_lem n = ground (arith, round_half (n + 25), same n)
  where
    same : (n : ℕ) → n + n + 50 ≡ n + 25 + (n + 25)
    same n = omega arith

between :
    (x w a : ℕ)
    → 25 ≤ a
    → a + a ≤ w
    → pos (x + w - a + 25) -ℤ pos (x + a - 25) ≡ pos (w + 50 - (a + a))
unfolding ◌-ℤ◌
between x w a le fits = ground (arith, le, fits)

transform_of_lem :
    (l t r b : ℤ) (pat_w pat_h : ℕ)
    → 0 < pat_w
    → 0 < pat_h
    → transform_of l t r b pat_w pat_h
      ≡ ok (record {
        left = l;
        top = t;
        right = r;
        bottom = b;
        scale_x = scale_of (r -ℤ l) pat_w;
        scale_y = scale_of (b -ℤ t) pat_h;
      })
unfolding transform_of
transform_of_lem l t r b pat_w pat_h pw ph = ground (arith, pw, ph)

-- For a pattern of positive size that is displayed upright with its upper left corner at any
-- place, and whose marker centres are a and b pixels from its sides, at least 25 and at most
-- half of the displayed size, `compute_transform` returns edges that lie a - 25 and b - 25
-- pixels inside those of the pattern, and so the true ones only where both are 25, and the
-- scales of that smaller rectangle.
pub compute_transform-placed :
    (x y w h a b pat_w pat_h : ℕ)
    → 25 ≤ a
    → a + a ≤ w
    → 25 ≤ b
    → b + b ≤ h
    → 0 < pat_w
    → 0 < pat_h
    → compute_transform (placed x y w h a b) pat_w pat_h
      ≡ ok (record {
        left = pos (x + a - 25);
        top = pos (y + b - 25);
        right = pos (x + w - a + 25);
        bottom = pos (y + h - b + 25);
        scale_x = scale_of (pos (w + 50 - (a + a))) pat_w;
        scale_y = scale_of (pos (h + 50 - (b + b))) pat_h;
      })
unfolding compute_transform
compute_transform-placed x y w h a b pat_w pat_h la fa lb fb pw ph =
    rw
      (
        inner_edge_lem x a la,
        inner_edge_lem y b lb,
        outer_edge_lem (x + w - a),
        outer_edge_lem (y + h - b),
      )
      (rw (← between x w a la fa, ← between y h b lb fb)
        (transform_of_lem (pos (x + a - 25)) (pos (y + b - 25)) (pos (x + w - a + 25))
          (pos (y + h - b + 25)) pat_w pat_h pw ph))
