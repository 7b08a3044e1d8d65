-- ===== src/Goldens/Png/RoundTrip.antt =====
-- An image that is written is read back as it was.
use mathlib.Core.List.{append-nil, append_assoc}
use vanpilot.Prelude.{
  ℕ, suc, ◌*◌, ◌%◌, ◌<◌, ◌≡◌, refl, ap, ◌∙◌, [], ◌∷◌, ◌++◌, arith, length, drop, replicate, nat_eq,
}
use vanpilot.Prelude.Text.{same_codes}
use vanpilot.Exec.{ok}
use vanpilot.Exec.Fallible.{◌>>=◌}
use vanpilot.Goldens.Filter.{Bytes}
use vanpilot.Goldens.Png.{
  Zlib, Image, Parsed, ihdr_type, idat_type, iend_type, ihdr_data, unpack_header, read_header,
  on_chunk, read_chunks, decode, nothing_parsed, png_signature, png_file, make_png_from_pixels,
  read_png_pixels, join, decode_chunks, decode_image,
}
use vanpilot.Goldens.Png.Words.{
  word, big_endian-word, pack_u32-word, chunk_bytes, chunk-chunk_bytes, read_chunks-step,
}
use vanpilot.Goldens.Png.Rows.{AllSmall, raw_rows, encode_rows-raw_rows, decode_rows-raw_rows}

-- Decompressing what was compressed gives it back, as the documentation of zlib says.
pub record IsZlib (z : Zlib) : Type 0 where
  pub inverse : (bs : Bytes) → z.decompress (z.compress bs) ≡ ok bs

-- An image that a PNG file has room for: the numbers of its header and the length of its data fit
-- four bytes, and each channel one.
pub record IsWritable (z : Zlib) (image : Image) : Type 0 where
  pub wide : image.width < 4294967296
  pub high : image.height < 4294967296
  pub small : AllSmall image.pixels
  pub whole : length image.pixels ≡ image.height * image.width
  pub packed : length (z.compress (raw_rows image.height image.width image.pixels)) < 4294967296

-- the header of an image
unfoldable header : ℕ → ℕ → Bytes
unfolding word
header w h = word w ++ word h ++ 8 ∷ 2 ∷ 0 ∷ 0 ∷ 0 ∷ []

-- the file of an image, as bytes
unfoldable file : Zlib → ℕ → ℕ → Bytes → Bytes
file z w h raw =
    png_signature
    ++ chunk_bytes z ihdr_type (header w h)
    ++ chunk_bytes z idat_type (z.compress raw)
    ++ chunk_bytes z iend_type []

png_file-file :
    (z : Zlib) (w h : ℕ) (raw : Bytes)
    → w < 4294967296
    → h < 4294967296
    → length (z.compress raw) < 4294967296
    → png_file z w h (ok raw) ≡ ok (file z w h raw)
unfolding png_file ihdr_data file header
png_file-file z w h raw hw hh packed =
    rw
      (
        pack_u32-word w hw,
        pack_u32-word h hh,
        chunk-chunk_bytes z ihdr_type (word w ++ word h ++ 8 ∷ 2 ∷ 0 ∷ 0 ∷ 0 ∷ []) (omega arith),
        chunk-chunk_bytes z idat_type (z.compress raw) packed,
        chunk-chunk_bytes z iend_type [] (omega arith),
      )
      refl

-- the loop, chunk by chunk
read_chunks-iend :
    (z : Zlib) (n : ℕ) (p : Parsed) → read_chunks (suc n) (chunk_bytes z iend_type []) p ≡ ok p
unfolding chunk_bytes on_chunk same_codes word
read_chunks-iend z n p =
    read_chunks-step n (z.crc32 iend_type % 4294967296) 73 69 78 68 [] [] p (omega arith)

read_chunks-idat :
    (z : Zlib) (n : ℕ) (data_ rest : Bytes) (p : Parsed)
    → length data_ < 4294967296
    → read_chunks (suc n) (chunk_bytes z idat_type data_ ++ rest) p
      ≡ read_chunks n rest (record p { idat_chunks = p.idat_chunks ++ data_ ∷ [] })
unfolding chunk_bytes on_chunk same_codes word
read_chunks-idat z n data_ rest p small =
    read_chunks-step n (z.crc32 (idat_type ++ data_) % 4294967296) 73 68 65 84 data_ rest p small

read_chunks-ihdr :
    (z : Zlib) (n w h : ℕ) (rest : Bytes) (p : Parsed)
    → w < 4294967296
    → h < 4294967296
    → read_chunks (suc n) (chunk_bytes z ihdr_type (header w h) ++ rest) p
      ≡ read_chunks n rest (record p { width = w; height = h; color_type = 2 })
unfolding chunk_bytes on_chunk same_codes word header read_header unpack_header
read_chunks-ihdr z n w h rest p hw hh =
    read_chunks-step n (z.crc32 (ihdr_type ++ header w h) % 4294967296) 73 72 68 82 (header w h)
      rest p (omega arith)
    ∙ rw (big_endian-word w hw, big_endian-word h hh) refl

read_chunks-file :
    (z : Zlib) (n w h : ℕ) (raw : Bytes)
    → w < 4294967296
    → h < 4294967296
    → length (z.compress raw) < 4294967296
    → read_chunks (suc (suc (suc n))) (drop 8 (file z w h raw)) nothing_parsed
      ≡ ok (record { width = w; height = h; color_type = 2; idat_chunks = z.compress raw ∷ [] })
unfolding file
read_chunks-file z n w h raw hw hh packed =
    let data_ = z.compress raw in
    let ihdr = chunk_bytes z ihdr_type (header w h) in
    let idat = chunk_bytes z idat_type data_ in
    let iend = chunk_bytes z iend_type [] in
    ap (λ bs. read_chunks (suc (suc (suc n))) bs nothing_parsed) (append_assoc ihdr idat iend)
    ∙ read_chunks-ihdr z (suc (suc n)) w h (idat ++ iend) nothing_parsed hw hh
    ∙ read_chunks-idat z (suc n) data_ iend _ packed
    ∙ read_chunks-iend z n _

read_png_pixels-file :
    (z : Zlib) (w h : ℕ) (raw : Bytes)
    → w < 4294967296
    → h < 4294967296
    → length (z.compress raw) < 4294967296
    → read_png_pixels z (file z w h raw)
      ≡ decode z
          (record { width = w; height = h; color_type = 2; idat_chunks = z.compress raw ∷ [] })
unfolding read_png_pixels same_codes file
read_png_pixels-file z w h raw hw hh packed =
    let n = length (drop 3 (file z w h raw)) in
    ap (λ r. r >>= decode z) (read_chunks-file z n w h raw hw hh packed)

make_png_from_pixels-file :
    (z : Zlib) (image : Image)
    → IsWritable z image
    → make_png_from_pixels z image.width image.height image.pixels
      ≡ ok (file z image.width image.height (raw_rows image.height image.width image.pixels))
unfolding make_png_from_pixels
make_png_from_pixels-file z image fits =
    rw (encode_rows-raw_rows image.height image.width image.pixels fits.whole fits.small)
      (png_file-file z image.width image.height _ fits.wide fits.high fits.packed)

-- For a zlib whose decompress undoes compress, and an image whose pixels fill its rectangle,
-- whose channels fit a byte and whose numbers and packed length fit four bytes,
-- `read_png_pixels` of the file that `_make_png_from_pixels` writes returns the image.
pub read_png_pixels-make_png_from_pixels :
    (z : Zlib) (image : Image)
    → IsZlib z
    → IsWritable z image
    → (make_png_from_pixels z image.width image.height image.pixels >>= read_png_pixels z)
      ≡ ok image
unfolding decode decode_chunks decode_image join
read_png_pixels-make_png_from_pixels z image zlib fits =
    let w = image.width in
    let h = image.height in
    let raw = raw_rows h w image.pixels in
    rw
      (
        make_png_from_pixels-file z image fits,
        read_png_pixels-file z w h raw fits.wide fits.high fits.packed,
        append-nil (z.compress raw),
        zlib.inverse raw,
        decode_rows-raw_rows h w image.pixels (replicate (w * 3) 0) fits.whole,
      )
      refl
