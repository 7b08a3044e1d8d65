-- ===== src/Goldens/Png/Length.antt =====
-- How many pixels an image has that `read_png_pixels` returns.
use vanpilot.Prelude.{
  ℕ, zero, suc, ◌*◌, ◌≡◌, List, [], ◌∷◌, arith, length, take, drop, replicate, length-append, not,
  ◌==◌, nat_eq, if◌then◌else◌,
}
use vanpilot.Prelude.Text.{same_codes}
use vanpilot.Exec.{ok, value_error}
use vanpilot.Exec.Fallible.{◌>>=◌, bind_ok, guard_ok}
use vanpilot.Goldens.Filter.{Bytes, defilter_row}
use vanpilot.Goldens.Png.{
  Zlib, Pixel, Image, Parsed, first_pixel, row_pixels, decode_rows, join, decode_image,
  decode_chunks, decode, read_chunks, nothing_parsed, png_signature, read_png_pixels,
}

length-row_pixels :
    (n bpp : ℕ) (row : Bytes) (ps : List Pixel) → row_pixels n bpp row ≡ ok ps → length ps ≡ n
unfolding row_pixels
length-row_pixels zero bpp row ps h = cc
length-row_pixels (suc n) bpp row ps h =
    let (p, _, h1) = bind_ok (first_pixel row) _ ps h in
    let (rest, e, h2) = bind_ok (row_pixels n bpp (drop bpp row)) _ ps h1 in
    let ih = length-row_pixels n bpp (drop bpp row) rest e in ground (arith, ih, h2)

length-decode_rows :
    (n width bpp stride : ℕ) (raw prev : Bytes) (ps : List Pixel)
    → decode_rows n width bpp stride raw prev ≡ ok ps
    → length ps ≡ n * width
unfolding decode_rows
length-decode_rows zero width bpp stride raw prev ps h = ground (arith, h)
length-decode_rows (suc n) width bpp stride [] prev ps h = cc
length-decode_rows (suc n) width bpp stride (filter ∷ raw) prev ps h =
    let (row, _, h1) = bind_ok (defilter_row filter (take stride raw) prev bpp) _ ps h in
    let (first, e, h2) = bind_ok (row_pixels width bpp row) _ ps h1 in
    let (rest, e', h3) = bind_ok (decode_rows n width bpp stride (drop stride raw) row) _ ps h2 in
    let here = length-row_pixels width bpp row first e in
    let ih = length-decode_rows n width bpp stride (drop stride raw) row rest e' in
    ground (arith, here, ih, h3, length-append first rest)

length-decode_image :
    (p : Parsed) (raw : Bytes) (image : Image)
    → decode_image p raw ≡ ok image
    → length image.pixels ≡ image.height * image.width
unfolding decode_image
length-decode_image p raw image h =
    let bpp : ℕ = if p.color_type == 2 then 3 else 4 in
    let zeros = replicate (p.width * bpp) 0 in
    let (ps, e, h1) =
      bind_ok (decode_rows p.height p.width bpp (p.width * bpp) raw zeros) _ image h in
    let counted = length-decode_rows p.height p.width bpp (p.width * bpp) raw zeros ps e in
    ground (arith, counted, h1)

length-decode_chunks :
    (z : Zlib) (p : Parsed) (cs : List Bytes) (image : Image)
    → decode_chunks z p cs ≡ ok image
    → length image.pixels ≡ image.height * image.width
unfolding decode_chunks
length-decode_chunks z p [] image h = cc
length-decode_chunks z p (c ∷ cs) image h =
    let (raw, _, h1) = bind_ok (z.decompress (join (c ∷ cs))) (decode_image p) image h in
    length-decode_image p raw image h1

-- An image that is read has a pixel for each place of its rectangle.
pub length-read_png_pixels :
    (z : Zlib) (png : Bytes) (image : Image)
    → read_png_pixels z png ≡ ok image
    → length image.pixels ≡ image.height * image.width
unfolding read_png_pixels decode
length-read_png_pixels z png image h =
    let (_, h1) =
      guard_ok (not (same_codes (take 8 png) png_signature)) value_error
        (read_chunks (length png) (drop 8 png) nothing_parsed >>= decode z) image h in
    let (p, _, h2) =
      bind_ok (read_chunks (length png) (drop 8 png) nothing_parsed) (decode z) image h1 in
    length-decode_chunks z p p.idat_chunks image h2
