-- ===== src/Goldens/Tests.antt =====
-- Concrete images. The stand-in for `zlib` leaves bytes as they are.
use vanpilot.Prelude.{ℕ, ◌-◌, ◌≡◌, ◌↔◌, refl, List, [], ◌∷◌, arith, ◌==◌, nat_eq, if◌then◌else◌}
use vanpilot.Prelude.Int.{pos, negsuc}
use vanpilot.Prelude.Text.{same_codes}
use vanpilot.Exec.{ok}
use vanpilot.Exec.Fallible.{◌>>=◌}
use vanpilot.Goldens.Filter.{Bytes, defilter_row, paeth_}
use vanpilot.Goldens.Filter.Laws.{number, filter_row, defilter_row-filter_row}
use vanpilot.Goldens.Png.{
  Zlib, Pixel, Image, make_png_from_pixels, read_png_pixels, read_chunks, on_chunk, read_header,
  unpack_header, unpack_u32, decode, decode_chunks, decode_image, decode_rows, row_pixels,
  first_pixel, join,
}
use vanpilot.Goldens.Png.Rows.{raw_rows, flat}
use vanpilot.Goldens.Png.RoundTrip.{IsZlib, IsWritable, read_png_pixels-make_png_from_pixels}
use vanpilot.Goldens.Compare.{matched, mismatched, compare_golden}
use vanpilot.Goldens.Compare.Laws.{Matches, compare_golden-IsDiff, IsDiff, compare_golden_iff}
use vanpilot.Goldens.Pane.{Pane, crop_to_app_pane, mask_status_bar}
use vanpilot.Goldens.Pane.Laws.{
  IsHeld, IsInside, IsCrop, IsMasked, crop_to_app_pane-IsCrop, mask_status_bar-IsMasked,
}

abbrev plain : Zlib
plain = record { compress = λ bs. bs; decompress = λ bs. ok bs; crc32 = λ bs. 0 }

plain-IsZlib : IsZlib plain
plain-IsZlib = record { inverse = λ bs. refl }

abbrev grey : ℕ → Pixel
grey n = record { red = n; green = n; blue = n }

abbrev pair : Image
pair = record { width = 2; height = 1; pixels = grey 7 ∷ grey 9 ∷ [] }

pair-IsWritable : IsWritable plain pair
unfolding raw_rows flat
pair-IsWritable = record {
  wide = omega arith;
  high = omega arith;
  small = omega arith;
  whole = refl;
  packed = omega arith;
}

read_png_pixels-make_png_from_pixels_example :
    (make_png_from_pixels plain pair.width pair.height pair.pixels >>= read_png_pixels plain)
    ≡ ok pair
read_png_pixels-make_png_from_pixels_example =
    read_png_pixels-make_png_from_pixels plain pair plain-IsZlib pair-IsWritable

abbrev row : Bytes
row = 5 ∷ 250 ∷ 17 ∷ 4 ∷ []

abbrev above : Bytes
above = 1 ∷ 2 ∷ 200 ∷ 4 ∷ []

defilter_row-filter_row_example :
    defilter_row (number paeth_) (filter_row paeth_ row above 3) above 3 ≡ ok row
defilter_row-filter_row_example =
    defilter_row-filter_row paeth_ row above 3 (omega arith) (omega arith) (omega arith)

-- the file of two grey pixels beside each other
abbrev file : ℕ → ℕ → Bytes
file a b =
    137 ∷ 80 ∷ 78 ∷ 71 ∷ 13 ∷ 10 ∷ 26 ∷ 10 ∷ 0 ∷ 0 ∷ 0 ∷ 13 ∷ 73 ∷ 72 ∷ 68 ∷ 82 ∷ 0 ∷ 0 ∷ 0 ∷ 2 ∷ 0
    ∷ 0 ∷ 0 ∷ 1 ∷ 8 ∷ 2 ∷ 0 ∷ 0 ∷ 0 ∷ 0 ∷ 0 ∷ 0 ∷ 0 ∷ 0 ∷ 0 ∷ 0 ∷ 7 ∷ 73 ∷ 68 ∷ 65 ∷ 84 ∷ 0 ∷ a ∷ a
    ∷ a ∷ b ∷ b ∷ b ∷ 0 ∷ 0 ∷ 0 ∷ 0 ∷ 0 ∷ 0 ∷ 0 ∷ 0 ∷ 73 ∷ 69 ∷ 78 ∷ 68 ∷ 0 ∷ 0 ∷ 0 ∷ 0 ∷ []

abbrev other : Image
other = record { width = 2; height = 1; pixels = grey 7 ∷ grey 12 ∷ [] }

read_pair : read_png_pixels plain (file 7 9) ≡ ok pair
unfolding read_png_pixels read_chunks on_chunk read_header unpack_header unpack_u32 decode
    decode_chunks decode_image decode_rows row_pixels first_pixel join same_codes defilter_row
read_pair = refl

read_other : read_png_pixels plain (file 7 12) ≡ ok other
unfolding read_png_pixels read_chunks on_chunk read_header unpack_header unpack_u32 decode
    decode_chunks decode_image decode_rows row_pixels first_pixel join same_codes defilter_row
read_other = refl

compare_golden_iff_example :
    (compare_golden plain (file 7 9) (file 7 12) (pos 3) ≡ matched) ↔ Matches 3 pair other
compare_golden_iff_example =
    compare_golden_iff plain (file 7 9) (file 7 12) pair other read_pair read_other 3

compare_golden-IsDiff_example :
    (n : ℕ) × (diff : List Pixel) × IsDiff 2 pair.pixels other.pixels n diff
    × (compare_golden plain (file 7 9) (file 7 12) (pos 2) ≡ (
        if n == 0
        then matched
        else (make_png_from_pixels plain 2 1 diff >>= λ png. mismatched n png)))
compare_golden-IsDiff_example =
    compare_golden-IsDiff plain (file 7 9) (file 7 12) pair other read_pair read_other 2 refl refl

crop_to_app_pane-IsCrop_example :
    (p : Pane) × (out : List Pixel) × IsHeld pair (pos 1) (negsuc 4) (pos 900) (pos 1) p
    × IsInside pair p
    × (crop_to_app_pane plain (file 7 9) (pos 1) (negsuc 4) (pos 900) (pos 1)
        ≡ make_png_from_pixels plain (p.right - p.left) (p.bottom - p.top) out)
    × IsCrop pair p out
crop_to_app_pane-IsCrop_example =
    crop_to_app_pane-IsCrop plain (file 7 9) pair (pos 1) (negsuc 4) (pos 900) (pos 1) read_pair

mask_status_bar-IsMasked_example :
    (out : List Pixel) × (mask_status_bar plain (file 7 9) (pos 1)
      ≡ make_png_from_pixels plain 2 1 out)
    × IsMasked 1 pair out
mask_status_bar-IsMasked_example = mask_status_bar-IsMasked plain (file 7 9) pair 1 read_pair
