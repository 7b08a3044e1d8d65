-- ===== src/Goldens/Compare/Laws.antt =====
-- When a screenshot matches its golden image.
use native.Mathlib.Nat.{add-zero}
use vanpilot.Prelude.{
  ℕ, ◌+◌, ◌*◌, ◌≤◌, ◌<◌, ◌≡◌, ◌≢◌, ◌↔◌, refl, sym, ◌∙◌, Bool, true, false, List, [], ◌∷◌, arith,
  ltb, leb, length, ◌&&◌, ◌||◌, not, ◌==◌, nat_eq, ==_refl, ==_iff, Bool-cases, inl, inr,
  if◌then◌else◌,
}
use vanpilot.Prelude.Int.{ℤ, pos, ◌-ℤ◌}
use vanpilot.Exec.{Result, ok}
use vanpilot.Exec.Fallible.{◌>>=◌, bind_ok}
use vanpilot.Goldens.Png.Length.{length-read_png_pixels}
use vanpilot.Goldens.Filter.{Bytes}
use vanpilot.Goldens.Filter.Laws.{distance}
use vanpilot.Goldens.Png.{Zlib, Pixel, Image, read_png_pixels, make_png, make_png_from_pixels}
use vanpilot.Goldens.Compare.{
  Verdict, matched, mismatched, red_pixel, dim, is_off, differs, diff_pixels, compare_pixels,
  compare_images, compare_golden,
}

-- No channel of two pixels is further apart than the tolerance.
abbrev pub IsClose : ℕ → Pixel → Pixel → Type 0
IsClose t a g =
    (distance a.red g.red ≤ t) × (distance a.green g.green ≤ t) × (distance a.blue g.blue ≤ t)

unfoldable pub is_close : ℕ → Pixel → Pixel → Bool
is_close t a g =
    leb (distance a.red g.red) t
    && (leb (distance a.green g.green) t && leb (distance a.blue g.blue) t)

abbrev pub AllClose : ℕ → List Pixel → List Pixel → Type 0
AllClose t [] [] = Unit {0}
AllClose t (a ∷ as_) (g ∷ gs) = IsClose t a g × AllClose t as_ gs
AllClose t _ _ = ⊥

-- Two images of one size whose pixels are close.
pub record Matches (t : ℕ) (a g : Image) : Type 0 where
  pub width : a.width ≡ g.width
  pub height : a.height ≡ g.height
  pub close : AllClose t a.pixels g.pixels

is_off-distance : (t a g : ℕ) → is_off (pos t) a g ≡ ltb t (distance a g)
unfolding is_off ◌-ℤ◌
is_off-distance t a g = ground arith

and_true : (b c : Bool) → (b && c) ≡ true → (b ≡ true) × (c ≡ true)
and_true true c h = (refl, h)
and_true false c h = cc

leb_of_le : (m n : ℕ) → m ≤ n → leb m n ≡ true
leb_of_le m n h = ground (arith, h)

le_of_leb : (m n : ℕ) → leb m n ≡ true → m ≤ n
le_of_leb m n h = ground (arith, h)

is_close-IsClose : (t : ℕ) (a g : Pixel) → is_close t a g ≡ true → IsClose t a g
unfolding is_close
is_close-IsClose t a g h =
    let (r, rest) = and_true (leb (distance a.red g.red) t) _ h in
    let (gr, b) = and_true (leb (distance a.green g.green) t) _ rest in
    (le_of_leb _ t r, le_of_leb _ t gr, le_of_leb _ t b)

IsClose-is_close : (t : ℕ) (a g : Pixel) → IsClose t a g → is_close t a g ≡ true
unfolding is_close
IsClose-is_close t a g (r, gr, b) = rw (leb_of_le _ t r, leb_of_le _ t gr, leb_of_le _ t b) refl

-- The number of positions at which two lists of pixels are not close.
unfoldable pub count_far : ℕ → List Pixel → List Pixel → ℕ
count_far t [] gs = 0
count_far t (a ∷ as_) [] = 0
count_far t (a ∷ as_) (g ∷ gs) = count_far t as_ gs + (if is_close t a g then 0 else 1)

-- The pixel of the diff image at each position.
unfoldable pub marked : ℕ → List Pixel → List Pixel → List Pixel
marked t [] gs = []
marked t (a ∷ as_) [] = []
marked t (a ∷ as_) (g ∷ gs) = (if is_close t a g then dim a else red_pixel) ∷ marked t as_ gs

differs-distance : (t : ℕ) (a g : Pixel) → differs (pos t) a g ≡ not (is_close t a g)
unfolding differs is_close
differs-distance t a g =
    let r = is_off-distance t a.red g.red in
    let gr = is_off-distance t a.green g.green in
    let b = is_off-distance t a.blue g.blue in ground (arith, r, gr, b)

-- The loop counts the pixels that are not close and marks them.
diff_pixels-count_far :
    (t : ℕ) (as_ gs : List Pixel)
    → length as_ ≡ length gs
    → diff_pixels (pos t) as_ gs ≡ ok (count_far t as_ gs, marked t as_ gs)
unfolding diff_pixels count_far marked
diff_pixels-count_far t [] [] h = refl
diff_pixels-count_far t [] (g ∷ gs) h = refl
diff_pixels-count_far t (a ∷ as_) [] h = ground (arith, h)
diff_pixels-count_far t (a ∷ as_) (g ∷ gs) h =
    let ih = diff_pixels-count_far t as_ gs (omega (arith, h)) in
    rw ih (rw (differs-distance t a g) (ground arith))

count_far_close :
    (t : ℕ) (as_ gs : List Pixel)
    → length as_ ≡ length gs
    → count_far t as_ gs ≡ 0
    → AllClose t as_ gs
unfolding count_far
count_far_close t [] [] h z = tt
count_far_close t [] (g ∷ gs) h z = ground (arith, h)
count_far_close t (a ∷ as_) [] h z = ground (arith, h)
count_far_close t (a ∷ as_) (g ∷ gs) h z = (
  is_close-IsClose t a g (ground (arith, z)),
  count_far_close t as_ gs (omega (arith, h)) (ground (arith, z)),
)

close_count_far : (t : ℕ) (as_ gs : List Pixel) → AllClose t as_ gs → count_far t as_ gs ≡ 0
unfolding count_far
close_count_far t [] [] h = refl
close_count_far t (a ∷ as_) (g ∷ gs) (c, h) =
    rw (close_count_far t as_ gs h, IsClose-is_close t a g c) refl
close_count_far t [] (g ∷ gs) h = elim h [ ]
close_count_far t (a ∷ as_) [] h = elim h [ ]

-- A comparison that ends in a diff image does not match.
diff_image_ne : (r : Result Bytes) (n : ℕ) → (r >>= λ diff. mismatched n diff) ≢ matched
diff_image_ne r n h = let (diff, _, same) = bind_ok r _ _ h in cc

-- The branch of the guard that returns a match is the second.
guarded :
    (c : Bool) (z : Zlib) (n : ℕ) (r : Result Verdict)
    → (if c then (make_png z 100 50 red_pixel >>= mismatched n) else r) ≡ matched
    → c ≡ false
guarded true z n r h = elim (diff_image_ne (make_png z 100 50 red_pixel) n h) [ ]
guarded false z n r h = refl

both_equal : (b c : Bool) → (not b || not c) ≡ false → (b ≡ true) × (c ≡ true)
both_equal true true h = (refl, refl)
both_equal true false h = cc
both_equal false c h = cc

same_sizes :
    (z : Zlib) (a g : Image) (tolerance : ℤ)
    → compare_images z a g tolerance ≡ matched
    → (a.width ≡ g.width) × (a.height ≡ g.height)
unfolding compare_images
same_sizes z a g tolerance h =
    let same =
      guarded (not (a.width == g.width) || not (a.height == g.height)) z (a.width * a.height)
        (compare_pixels z a g tolerance) h in
    let (w, e) = both_equal (a.width == g.width) _ same in
    ((==_iff a.width g.width).0 w, (==_iff a.height g.height).0 e)

same_count :
    (n : ℕ) (r : Result Bytes)
    → (if n == 0 then matched else (r >>= λ diff. mismatched n diff)) ≡ matched
    → n ≡ 0
same_count n r h = elim (Bool-cases (n == 0)) [
  | inl e ↦ (==_iff n 0).0 e
  | inr e ↦ elim (diff_image_ne r n (rw e at h)) [ ]
]

-- Each channel is a third of the other's, rounded down.
pub record IsThird (a p : Pixel) : Type 0 where
  pub red : (3 * p.red ≤ a.red) × (a.red < 3 * p.red + 3)
  pub green : (3 * p.green ≤ a.green) × (a.green < 3 * p.green + 3)
  pub blue : (3 * p.blue ≤ a.blue) × (a.blue < 3 * p.blue + 3)

-- `n` pixels are too far apart, and these are red in the diff image, the others at a third of
-- their brightness.
pub data IsDiff (t : ℕ) : List Pixel → List Pixel → ℕ → List Pixel → Type 0 where
  ends : IsDiff t [] [] 0 []
  near :
      (a g p : Pixel) (as_ gs out : List Pixel) (n : ℕ)
      → IsClose t a g
      → IsThird a p
      → IsDiff t as_ gs n out
      → IsDiff t (a ∷ as_) (g ∷ gs) n (p ∷ out)
  apart :
      (a g : Pixel) (as_ gs out : List Pixel) (n : ℕ)
      → ¬ IsClose t a g
      → IsDiff t as_ gs n out
      → IsDiff t (a ∷ as_) (g ∷ gs) (n + 1) (record { red = 255; green = 0; blue = 0 } ∷ out)

dim-IsThird : (a : Pixel) → IsThird a (dim a)
dim-IsThird a = record {
  red = (omega arith, omega arith);
  green = (omega arith, omega arith);
  blue = (omega arith, omega arith);
}

marked-IsDiff :
    (t : ℕ) (as_ gs : List Pixel)
    → length as_ ≡ length gs
    → IsDiff t as_ gs (count_far t as_ gs) (marked t as_ gs)
unfolding count_far marked
marked-IsDiff t [] [] h = ends
marked-IsDiff t [] (g ∷ gs) h = absurd (ground (arith, h))
marked-IsDiff t (a ∷ as_) [] h = absurd (ground (arith, h))
marked-IsDiff t (a ∷ as_) (g ∷ gs) h =
    let ih = marked-IsDiff t as_ gs (omega (arith, h)) in
    elim (Bool-cases (is_close t a g)) [
      | inl close ↦
          rw (close, add-zero (count_far t as_ gs))
            (near a g (dim a) as_ gs _ _ (is_close-IsClose t a g close) (dim-IsThird a) ih)
      | inr far ↦
          rw far
            (apart a g as_ gs _ _ (λ c. absurd (ground (arith, IsClose-is_close t a g c, far))) ih)
    ]

module _ (z : Zlib) (actual golden : Bytes) (a g : Image)
    (read_actual : read_png_pixels z actual ≡ ok a)
    (read_golden : read_png_pixels z golden ≡ ok g) where
  same_length : a.width ≡ g.width → a.height ≡ g.height → length a.pixels ≡ length g.pixels
  same_length w h =
      let la = length-read_png_pixels z actual a read_actual in
      let lg = length-read_png_pixels z golden g read_golden in la ∙ (λ i. h i * w i) ∙ sym lg

  -- The verdict by the count and the marks of the loop.
  compare_golden-count_far :
      (t : ℕ)
      → a.width ≡ g.width
      → a.height ≡ g.height
      → compare_golden z actual golden (pos t) ≡ (
          if count_far t a.pixels g.pixels == 0
          then matched
          else (make_png_from_pixels z a.width a.height (marked t a.pixels g.pixels) >>= λ diff.
              mismatched (count_far t a.pixels g.pixels) diff))
  unfolding compare_golden compare_images compare_pixels
  compare_golden-count_far t w h =
      let counted = diff_pixels-count_far t a.pixels g.pixels (same_length w h) in
      rw (read_actual, read_golden, w, h, ==_refl g.width, ==_refl g.height, counted) refl

  -- For two PNG files of one size that can be read and a tolerance that is not negative,
  -- `compare_golden` returns a match where no pixel is too far apart, and else the number of
  -- pixels that are and a PNG file of that size that has red where the two differ by more than
  -- the tolerance, and at every other place the pixel of the actual file with each channel
  -- divided by three and rounded down, unless writing that file raises.
  pub compare_golden-IsDiff :
      (t : ℕ)
      → a.width ≡ g.width
      → a.height ≡ g.height
      → (n : ℕ) × (diff : List Pixel) × IsDiff t a.pixels g.pixels n diff
        × (compare_golden z actual golden (pos t) ≡ (
            if n == 0
            then matched
            else (make_png_from_pixels z a.width a.height diff >>= λ png. mismatched n png)))
  compare_golden-IsDiff t w h = (
    count_far t a.pixels g.pixels,
    marked t a.pixels g.pixels,
    marked-IsDiff t a.pixels g.pixels (same_length w h),
    compare_golden-count_far t w h,
  )

  -- For two PNG files that can be read and a tolerance that is not negative, `compare_golden`
  -- returns a match exactly when the images have the same width and height and no channel of any
  -- two pixels at one place is further apart than the tolerance.
  pub compare_golden_iff :
      (t : ℕ) → (compare_golden z actual golden (pos t) ≡ matched) ↔ Matches t a g
  unfolding compare_golden
  compare_golden_iff t = (
    (λ h.
        let (w, e) = same_sizes z a g (pos t) (rw (read_actual, read_golden) at h) in
        let h1 = sym (compare_golden-count_far t w e) ∙ h in
        let none_far = same_count (count_far t a.pixels g.pixels) _ h1 in
        record {
          width = w;
          height = e;
          close = count_far_close t a.pixels g.pixels (same_length w e) none_far;
        }),
    (λ m.
        compare_golden-count_far t m.width m.height
        ∙ rw (close_count_far t a.pixels g.pixels m.close) refl),
  )
