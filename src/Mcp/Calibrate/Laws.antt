-- ===== src/Mcp/Calibrate/Laws.antt =====
-- The scan finds the smallest box that holds every sampled pixel of the marker.
use vanpilot.Prelude.{
  ℕ, zero, suc, ◌+◌, ◌*◌, ◌/◌, ◌≤◌, ◌<◌, ◌≡◌, ◌⊎◌, inl, inr, refl, Bool, true, false, arith, ltb,
  Bool-cases, if◌then◌else◌,
}
use vanpilot.Exec.{Result, ok, err, value_error}
use vanpilot.Goldens.Png.{Pixel}
use vanpilot.Mcp.Calibrate.{
  Image, Box, step, samples, is_near, widen, look, scan_row, scan_rows, marker_box,
  find_marker_center,
}

-- A place is in the first rows, or among the first of the row after them.
abbrev Scanned : ℕ → ℕ → ℕ → ℕ → ℕ → Type 0
Scanned cols rows n i j = (i < cols) × ((j < rows) ⊎ ((j ≡ rows) × (i < n)))

-- What is not above a side at zero is at zero.
zero_side : (v side : ℕ) → side ≡ 0 → (ltb side v ≡ true) ⊎ (v ≡ side)
zero_side v side h = elim (Bool-cases (ltb side v)) [
  | inl above ↦ inl above
  | inr at_zero ↦ inr (ground (arith, at_zero, h))
]

module _ (img : Image) (target_color : Pixel) where
  -- The sampled pixel is of the marker's color.
  abbrev pub Marks : ℕ → ℕ → Type 0
  Marks i j = is_near (img.getpixel (step * i) (step * j)) target_color ≡ true

  -- The box holds the sampled pixels of the marker that satisfy `P`, and each side touches one.
  pub record IsBox (P : ℕ → ℕ → Type 0) (b : Box) : Type 0 where
    pub covers :
        (i j : ℕ)
        → P i j
        → Marks i j
        → (b.found ≡ true)
          × (b.min_x ≤ step * i)
          × (step * i ≤ b.max_x)
          × (b.min_y ≤ step * j)
          × (step * j ≤ b.max_y)
    pub left : b.found ≡ true → (i : ℕ) × (j : ℕ) × P i j × Marks i j × (step * i ≡ b.min_x)
    pub right : b.found ≡ true → (i : ℕ) × (j : ℕ) × P i j × Marks i j × (step * i ≡ b.max_x)
    pub top : b.found ≡ true → (i : ℕ) × (j : ℕ) × P i j × Marks i j × (step * j ≡ b.min_y)
    pub bottom : b.found ≡ true → (i : ℕ) × (j : ℕ) × P i j × Marks i j × (step * j ≡ b.max_y)
    pub start :
        b.found ≡ false
        → (b.min_x ≡ img.width) × (b.min_y ≡ img.height) × (b.max_x ≡ 0) × (b.max_y ≡ 0)

  -- The same places, told otherwise.
  same_places :
      {P Q : ℕ → ℕ → Type 0} {b : Box}
      → ((i j : ℕ) → P i j → Q i j)
      → ((i j : ℕ) → Q i j → P i j)
      → IsBox P b
      → IsBox Q b
  same_places to back k = record {
    covers = λ i j q. k.covers i j (back i j q);
    left = λ f. let (i, j, p, mark, same) = k.left f in (i, j, to i j p, mark, same);
    right = λ f. let (i, j, p, mark, same) = k.right f in (i, j, to i j p, mark, same);
    top = λ f. let (i, j, p, mark, same) = k.top f in (i, j, to i j p, mark, same);
    bottom = λ f. let (i, j, p, mark, same) = k.bottom f in (i, j, to i j p, mark, same);
    start = k.start;
  }

  -- One more place.
  abbrev Or : (ℕ → ℕ → Type 0) → ℕ → ℕ → ℕ → ℕ → Type 0
  Or P m n i j = P i j ⊎ ((i ≡ m) × (j ≡ n))

  -- A place of `P` whose pixel is marked, with this coordinate.
  abbrev Touches : (ℕ → ℕ → Type 0) → (ℕ → ℕ → ℕ) → ℕ → Type 0
  Touches P side v = (i : ℕ) × (j : ℕ) × P i j × Marks i j × (side i j ≡ v)

  -- A side moves to the new place, or stays where it was.
  touch :
      {P : ℕ → ℕ → Type 0} (side : ℕ → ℕ → ℕ) (m n old : ℕ) (moves : Bool) (found : Bool)
      → Marks m n
      → (found ≡ true → Touches P side old)
      → (found ≡ false → (moves ≡ true) ⊎ (side m n ≡ old))
      → Touches (Or P m n) side (if moves then side m n else old)
  touch side m n old true found marked there new = (m, n, inr (refl, refl), marked, refl)
  touch side m n old false true marked there new =
      let (i, j, p, mark, same) = there refl in (i, j, inl p, mark, same)
  touch side m n old false false marked there new = elim (new refl) [
    | inl impossible ↦ absurd (ground (arith, impossible))
    | inr same ↦ (m, n, inr (refl, refl), marked, same)
  ]

  widen-IsBox :
      {P : ℕ → ℕ → Type 0} (m n : ℕ) (b : Box)
      → step * m < img.width
      → step * n < img.height
      → Marks m n
      → IsBox P b
      → IsBox (Or P m n) (widen (step * m) (step * n) b)
  unfolding widen
  widen-IsBox m n b in_x in_y marked k = record {
    covers = λ i j p mark. elim p [
      | inl old ↦
          let (_, a1, a2, a3, a4) = k.covers i j old mark in
          (refl, ground (arith, a1), ground (arith, a2), ground (arith, a3), ground (arith, a4))
      | inr (same_i, same_j) ↦ (
        refl,
        ground (arith, same_i),
        ground (arith, same_i),
        ground (arith, same_j),
        ground (arith, same_j),
      )
    ];
    left = λ _.
        touch (λ i j. step * i) m n b.min_x (ltb (step * m) b.min_x) b.found marked k.left
          (λ f. inl (ground (arith, k.start f, in_x)));
    right = λ _.
        touch (λ i j. step * i) m n b.max_x (ltb b.max_x (step * m)) b.found marked k.right
          (λ f. zero_side (step * m) b.max_x (k.start f).2);
    top = λ _.
        touch (λ i j. step * j) m n b.min_y (ltb (step * n) b.min_y) b.found marked k.top
          (λ f. inl (ground (arith, k.start f, in_y)));
    bottom = λ _.
        touch (λ i j. step * j) m n b.max_y (ltb b.max_y (step * n)) b.found marked k.bottom
          (λ f. zero_side (step * n) b.max_y (k.start f).3);
    start = λ f. absurd (ground (arith, f));
  }

  look-IsBox :
      {P : ℕ → ℕ → Type 0} (m n : ℕ) (b : Box)
      → step * m < img.width
      → step * n < img.height
      → IsBox P b
      → IsBox (Or P m n) (look img target_color (step * m) (step * n) b)
  unfolding look
  look-IsBox m n b in_x in_y k =
      elim (Bool-cases (is_near (img.getpixel (step * m) (step * n)) target_color)) [
        | inl marked ↦ rw marked (widen-IsBox m n b in_x in_y marked k)
        | inr other ↦ rw other (record {
          covers = λ i j p mark. elim p [
            | inl old ↦ k.covers i j old mark
            | inr (same_i, same_j) ↦ absurd (ground (arith, same_i, same_j, mark, other))
          ];
          left = λ f. let (i, j, p, mark, same) = k.left f in (i, j, inl p, mark, same);
          right = λ f. let (i, j, p, mark, same) = k.right f in (i, j, inl p, mark, same);
          top = λ f. let (i, j, p, mark, same) = k.top f in (i, j, inl p, mark, same);
          bottom = λ f. let (i, j, p, mark, same) = k.bottom f in (i, j, inl p, mark, same);
          start = k.start;
        })
      ]

  in_samples : (m n : ℕ) → m < samples n → step * m < n
  unfolding samples
  in_samples m n h = omega (arith, h)

  abbrev cols : ℕ
  cols = samples img.width

  scan_row-IsBox :
      (n m : ℕ) (b : Box)
      → m ≤ cols
      → step * n < img.height
      → IsBox (Scanned cols n 0) b
      → IsBox (Scanned cols n m) (scan_row img target_color m (step * n) b)
  unfolding scan_row
  scan_row-IsBox n zero b le in_y k = k
  scan_row-IsBox n (suc m) b le in_y k =
      same_places (λ i j p. ground (arith, p, le)) (λ i j p. ground (arith, p))
        (look-IsBox m n (scan_row img target_color m (step * n) b)
          (in_samples m img.width (omega (arith, le))) in_y
          (scan_row-IsBox n m b (omega (arith, le)) in_y k))

  abbrev nothing_yet : Box
  nothing_yet = record {
    min_x = img.width;
    min_y = img.height;
    max_x = 0;
    max_y = 0;
    found = false;
  }

  scan_rows-IsBox :
      (n : ℕ)
      → n ≤ samples img.height
      → IsBox (Scanned cols n 0) (scan_rows img target_color n nothing_yet)
  unfolding scan_rows
  scan_rows-IsBox zero le = record {
    covers = λ i j p. absurd (ground (arith, p));
    left = λ f. absurd (ground (arith, f));
    right = λ f. absurd (ground (arith, f));
    top = λ f. absurd (ground (arith, f));
    bottom = λ f. absurd (ground (arith, f));
    start = λ f. (refl, refl, refl, refl);
  }
  scan_rows-IsBox (suc n) le =
      same_places (λ i j p. ground (arith, p)) (λ i j p. ground (arith, p))
        (scan_row-IsBox n cols (scan_rows img target_color n nothing_yet) (omega arith)
          (in_samples n img.height (omega (arith, le))) (scan_rows-IsBox n (omega (arith, le))))

  -- The places that the scan samples.
  abbrev pub InImage : ℕ → ℕ → Type 0
  InImage i j = (step * i < img.width) × (step * j < img.height)

  marker_box-IsBox : IsBox InImage (marker_box img target_color)
  unfolding marker_box samples
  marker_box-IsBox =
      same_places (λ i j p. in_image i j p) (λ i j p. sampled i j p)
        (scan_rows-IsBox (samples img.height) (omega arith))
    where
      in_image : (i j : ℕ) → Scanned cols (samples img.height) 0 i j → InImage i j
      in_image i j (col, inl row) = (omega (arith, col), omega (arith, row))
      in_image i j (col, inr (_, none_left)) = absurd (omega (arith, none_left))

      sampled : (i j : ℕ) → InImage i j → Scanned cols (samples img.height) 0 i j
      sampled i j (in_x, in_y) = (omega (arith, in_x), inl (omega (arith, in_y)))

  -- The centre of the smallest box that holds all sampled pixels of the marker, or no such pixel.
  pub data Centers (r : Result (ℕ × ℕ)) : Type 0 where
    center :
        (b : Box)
        → IsBox InImage b
        → b.found ≡ true
        → r ≡ ok ((b.min_x + b.max_x) / 2, (b.min_y + b.max_y) / 2)
        → Centers r
    missing : ((i j : ℕ) → InImage i j → ¬ Marks i j) → r ≡ err value_error → Centers r

  -- For any image and color, `_find_marker_center` returns the rounded down centre of the
  -- smallest box that holds all sampled pixels near the color, each side of which touches one,
  -- where there is such a pixel, and raises ValueError where there is none; the sampled pixels
  -- are those in the image with two even coordinates.
  pub find_marker_center-Centers : Centers (find_marker_center img target_color)
  unfolding find_marker_center
  find_marker_center-Centers =
      let b = marker_box img target_color in
      elim (Bool-cases b.found) [
        | inl found ↦ center b marker_box-IsBox found (rw found refl)
        | inr not_found ↦
            missing
              (λ i j inside mark.
                absurd (ground (arith, (marker_box-IsBox.covers i j inside mark).0, not_found)))
              (rw not_found refl)
      ]
