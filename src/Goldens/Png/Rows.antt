-- ===== src/Goldens/Png/Rows.antt =====
-- Rows of pixels: what is written for them is read back as them.
use vanpilot.Prelude.{
  ℕ, zero, suc, ◌*◌, ◌<◌, ◌≤◌, ◌≡◌, refl, List, [], ◌∷◌, ◌++◌, arith, length, length-take,
  length-drop, take, drop, take-append-drop, replicate,
}
use vanpilot.Exec.{ok}
use vanpilot.Goldens.Filter.{Bytes, defilter_row, defilter_as, filter_type}
use vanpilot.Goldens.Png.{
  Pixel, pixel_bytes, row_bytes, encode_rows, first_pixel, row_pixels, decode_rows,
}
use vanpilot.Goldens.Png.Words.{take-append, drop-append}

-- The channels of a pixel are bytes.
abbrev pub IsSmall : Pixel → Type 0
IsSmall p = (p.red < 256) × (p.green < 256) × (p.blue < 256)

abbrev pub AllSmall : List Pixel → Type 0
AllSmall [] = Unit {0}
AllSmall (p ∷ ps) = IsSmall p × AllSmall ps

AllSmall-drop : (n : ℕ) (ps : List Pixel) → AllSmall ps → AllSmall (drop n ps)
AllSmall-drop zero ps s = s
AllSmall-drop (suc n) [] s = tt
AllSmall-drop (suc n) (p ∷ ps) (h, s) = AllSmall-drop n ps s

pub AllSmall-replicate : (n : ℕ) (p : Pixel) → IsSmall p → AllSmall (replicate n p)
AllSmall-replicate zero p s = tt
AllSmall-replicate (suc n) p s = (s, AllSmall-replicate n p s)

-- the bytes of pixels
unfoldable pub flat : List Pixel → Bytes
flat [] = []
flat (p ∷ ps) = p.red ∷ p.green ∷ p.blue ∷ flat ps

-- the filtered rows, all of filter type 0
unfoldable pub raw_rows : ℕ → ℕ → List Pixel → Bytes
unfolding flat
raw_rows zero width ps = []
raw_rows (suc n) width ps = 0 ∷ flat (take width ps) ++ raw_rows n width (drop width ps)

pub pixel_bytes-small : (p : Pixel) → IsSmall p → pixel_bytes p ≡ ok (p.red ∷ p.green ∷ p.blue ∷ [])
unfolding pixel_bytes
pixel_bytes-small p (r, g, b) = ground (arith, r, g, b)

row_bytes-flat :
    (n : ℕ) (ps : List Pixel) → n ≤ length ps → AllSmall ps → row_bytes n ps ≡ ok (flat (take n ps))
unfolding row_bytes flat
row_bytes-flat zero ps h s = refl
row_bytes-flat (suc n) [] h s = absurd (omega arith)
row_bytes-flat (suc n) (p ∷ ps) h (small, s) =
    rw (pixel_bytes-small p small, row_bytes-flat n ps (omega arith) s) refl

length-flat : (ps : List Pixel) → length (flat ps) ≡ length ps * 3
unfolding flat
length-flat [] = refl
length-flat (p ∷ ps) = omega (arith, length-flat ps)

row_pixels-flat : (ps : List Pixel) → row_pixels (length ps) 3 (flat ps) ≡ ok ps
unfolding row_pixels first_pixel flat
row_pixels-flat [] = refl
row_pixels-flat (p ∷ ps) = rw (row_pixels-flat ps) refl

row_pixels_at : (n : ℕ) (ps : List Pixel) → length ps ≡ n → row_pixels n 3 (flat ps) ≡ ok ps
row_pixels_at n ps e = rw (← e) (row_pixels-flat ps)

take_at : (n : ℕ) (xs ys : Bytes) → length xs ≡ n → take n (xs ++ ys) ≡ xs
take_at n xs ys e = rw (← e) (take-append xs ys)

drop_at : (n : ℕ) (xs ys : Bytes) → length xs ≡ n → drop n (xs ++ ys) ≡ ys
drop_at n xs ys e = rw (← e) (drop-append xs ys)

pub encode_rows-raw_rows :
    (n width : ℕ) (ps : List Pixel)
    → length ps ≡ n * width
    → AllSmall ps
    → encode_rows n width ps ≡ ok (raw_rows n width ps)
unfolding encode_rows raw_rows
encode_rows-raw_rows zero width ps h s = refl
encode_rows-raw_rows (suc n) width ps h s =
    let left : length (drop width ps) ≡ n * width = omega (arith, length-drop width ps, h) in
    rw
      (
        row_bytes-flat width ps (omega (arith, h)) s,
        encode_rows-raw_rows n width (drop width ps) left (AllSmall-drop width ps s),
      )
      refl

pub decode_rows-raw_rows :
    (n width : ℕ) (ps : List Pixel) (prev : Bytes)
    → length ps ≡ n * width
    → decode_rows n width 3 (width * 3) (raw_rows n width ps) prev ≡ ok ps
unfolding decode_rows raw_rows defilter_row defilter_as filter_type
decode_rows-raw_rows zero width [] prev h = refl
decode_rows-raw_rows zero width (p ∷ ps) prev h = absurd (omega arith)
decode_rows-raw_rows (suc n) width ps prev h =
    let row = take width ps in
    let left : length (drop width ps) ≡ n * width = omega (arith, length-drop width ps, h) in
    let wide : length row ≡ width = omega (arith, length-take width ps, h) in
    let size : length (flat row) ≡ width * 3 = omega (arith, length-flat row, wide) in
    let rest = raw_rows n width (drop width ps) in
    rw
      (
        take_at (width * 3) (flat row) rest size,
        drop_at (width * 3) (flat row) rest size,
        row_pixels_at width row wide,
        decode_rows-raw_rows n width (drop width ps) (flat row) left,
        take-append-drop width ps,
      )
      refl
