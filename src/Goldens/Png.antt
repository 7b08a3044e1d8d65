-- ===== src/Goldens/Png.antt =====
-- Reading and writing PNG images: `read_png_pixels`, `_make_png_from_pixels` and `_chunk` of
-- goldens/golden_diff.py, and `make_png` of mcp/src/png_util.py. The module `zlib` is an argument.
pub mod Words
pub mod Rows
pub mod RoundTrip
pub mod Length
use vanpilot.Prelude.{
  ℕ, zero, suc, ◌+◌, ◌*◌, ◌/◌, ◌%◌, ◌^◌, String, Bool, Option, none, some, List, [], ◌∷◌, ◌++◌, ltb,
  ◌&&◌, ◌||◌, not, ◌==◌, nat_eq, length, take, drop, replicate, if◌then◌else◌,
}
use vanpilot.Prelude.Text.{codes, same_codes}
use vanpilot.Exec.{Result, ok, err, index_error, value_error, struct_error, out_of_fuel}
use vanpilot.Exec.Fallible.{◌>>=◌}
use vanpilot.Goldens.Filter.{Bytes, defilter_row}

-- the functions of `zlib` that the code calls
pub record Zlib : Type 0 where
  pub compress : Bytes → Bytes
  pub decompress : Bytes → Result Bytes
  pub crc32 : Bytes → ℕ

pub record Pixel : Type 0 where
  pub red : ℕ
  pub green : ℕ
  pub blue : ℕ

-- `(width, height, pixels)`
pub record Image : Type 0 where
  pub width : ℕ
  pub height : ℕ
  pub pixels : List Pixel

-- `PNG_SIGNATURE`
abbrev pub png_signature : Bytes
png_signature = 137 ∷ 80 ∷ 78 ∷ 71 ∷ 13 ∷ 10 ∷ 26 ∷ 10 ∷ []

-- `struct.pack(">I", n)`
unfoldable pub pack_u32 : ℕ → Result Bytes
pack_u32 n =
    if ltb n 4294967296
    then ok (n / 16777216 ∷ n / 65536 % 256 ∷ n / 256 % 256 ∷ n % 256 ∷ [])
    else err struct_error

abbrev pub big_endian : ℕ → ℕ → ℕ → ℕ → ℕ
big_endian a b c d = ((a * 256 + b) * 256 + c) * 256 + d

-- `struct.unpack(">I", bs)[0]`
unfoldable pub unpack_u32 : Bytes → Result ℕ
unpack_u32 (a ∷ b ∷ c ∷ d ∷ []) = ok (big_endian a b c d)
unpack_u32 _ = err struct_error

-- `_chunk`
unfoldable pub chunk : Zlib → Bytes → Bytes → Result Bytes
unfolding pack_u32
chunk z chunk_type data_ = do
  len ← pack_u32 (length data_)
  crc ← pack_u32 (z.crc32 (chunk_type ++ data_) % 4294967296)
  ok (len ++ (chunk_type ++ data_) ++ crc)

abbrev pub ihdr_type : Bytes
ihdr_type = 73 ∷ 72 ∷ 68 ∷ 82 ∷ []

abbrev pub idat_type : Bytes
idat_type = 73 ∷ 68 ∷ 65 ∷ 84 ∷ []

abbrev pub iend_type : Bytes
iend_type = 73 ∷ 69 ∷ 78 ∷ 68 ∷ []

-- `bytes([r, g, b])`
unfoldable pub pixel_bytes : Pixel → Result Bytes
pixel_bytes p =
    if ltb p.red 256 && ltb p.green 256 && ltb p.blue 256
    then ok (p.red ∷ p.green ∷ p.blue ∷ [])
    else err value_error

-- the inner loop: `n` pixels from the first of the row on
unfoldable pub row_bytes : ℕ → List Pixel → Result Bytes
unfolding pixel_bytes
row_bytes zero pixels = ok []
row_bytes (suc n) [] = err index_error
row_bytes (suc n) (p ∷ pixels) =
    pixel_bytes p >>= λ bs. row_bytes n pixels >>= λ rest. ok (bs ++ rest)

-- the outer loop: `n` rows, of the pixels from `y * width` on
unfoldable pub encode_rows : ℕ → ℕ → List Pixel → Result Bytes
unfolding row_bytes
encode_rows zero width pixels = ok []
encode_rows (suc n) width pixels = row_bytes width pixels >>= λ row.
    encode_rows n width (drop width pixels) >>= λ rest. ok (0 ∷ row ++ rest)

-- `struct.pack(">IIBBBBB", width, height, 8, 2, 0, 0, 0)`
unfoldable pub ihdr_data : ℕ → ℕ → Result Bytes
unfolding pack_u32
ihdr_data width height = do
  w ← pack_u32 width
  h ← pack_u32 height
  ok (w ++ h ++ 8 ∷ 2 ∷ 0 ∷ 0 ∷ 0 ∷ [])

-- the file around the filtered rows
unfoldable pub png_file : Zlib → ℕ → ℕ → Result Bytes → Result Bytes
unfolding ihdr_data chunk
png_file z width height rows = do
  header ← ihdr_data width height
  ihdr ← chunk z ihdr_type header
  raw ← rows
  idat ← chunk z idat_type (z.compress raw)
  iend ← chunk z iend_type []
  ok (png_signature ++ ihdr ++ idat ++ iend)

-- `_make_png_from_pixels`
unfoldable pub make_png_from_pixels : Zlib → ℕ → ℕ → List Pixel → Result Bytes
unfolding png_file encode_rows
make_png_from_pixels z width height pixels =
    png_file z width height (encode_rows height width pixels)

-- `bs * n`
unfoldable pub repeat : ℕ → Bytes → Bytes
repeat zero bs = []
repeat (suc n) bs = bs ++ repeat n bs

-- `make_png`
unfoldable pub make_png : Zlib → ℕ → ℕ → Pixel → Result Bytes
unfolding png_file pixel_bytes repeat
make_png z width height rgb =
    png_file z width height (pixel_bytes rgb >>= λ bs. ok (repeat height (0 ∷ repeat width bs)))

-- `struct.unpack(">IIBB", bs)`: width, height, bit depth and color type
unfoldable pub unpack_header : Bytes → Result (ℕ × ℕ × ℕ × ℕ)
unpack_header (a ∷ b ∷ c ∷ d ∷ e ∷ f ∷ g ∷ h ∷ depth ∷ color ∷ []) =
    ok (big_endian a b c d, big_endian e f g h, depth, color)
unpack_header _ = err struct_error

-- the local variables of the loop over the chunks
pub record Parsed : Type 0 where
  pub width : ℕ
  pub height : ℕ
  pub color_type : ℕ
  pub idat_chunks : List Bytes

-- the branch of an IHDR chunk
unfoldable pub read_header : Bytes → Parsed → Result Parsed
unfolding unpack_header
read_header chunk_data p = do
  (w, h, depth, color) ← unpack_header (take 10 chunk_data)
  if not (depth == 8) || not (color == 2 || color == 6)
      then err value_error
      else ok (record p { width = w; height = h; color_type = color })

-- the branches on the type of a chunk; an IEND chunk ends the loop
unfoldable pub on_chunk : Bytes → Bytes → Parsed → (Parsed → Result Parsed) → Result Parsed
unfolding read_header
on_chunk chunk_type chunk_data p go_on =
    if same_codes chunk_type ihdr_type
    then (read_header chunk_data p >>= go_on)
    else (if same_codes chunk_type idat_type
        then go_on (record p { idat_chunks = p.idat_chunks ++ chunk_data ∷ [] })
        else (if same_codes chunk_type iend_type then ok p else go_on p))

-- The loop over the chunks, on the bytes from `pos` on. Every round takes twelve bytes or more, so
-- that as many rounds as there are bytes are enough.
unfoldable pub read_chunks : ℕ → Bytes → Parsed → Result Parsed
unfolding unpack_u32 on_chunk
read_chunks n [] p = ok p
read_chunks zero (b ∷ rest) p = err out_of_fuel
read_chunks (suc n) (b ∷ rest) p =
    let bs = b ∷ rest in
    unpack_u32 (take 4 bs) >>= λ len.
    on_chunk (take 4 (drop 4 bs)) (take len (drop 8 bs)) p (read_chunks n (drop (12 + len) bs))

unfoldable pub first_pixel : Bytes → Result Pixel
first_pixel (r ∷ g ∷ b ∷ _) = ok (record { red = r; green = g; blue = b })
first_pixel _ = err index_error

-- the inner loop: `n` pixels of a row, each of `bpp` bytes
unfoldable pub row_pixels : ℕ → ℕ → Bytes → Result (List Pixel)
unfolding first_pixel
row_pixels zero bpp row = ok []
row_pixels (suc n) bpp row =
    first_pixel row >>= λ p. row_pixels n bpp (drop bpp row) >>= λ ps. ok (p ∷ ps)

-- the outer loop, on the bytes from `row_start` on
unfoldable pub decode_rows : ℕ → ℕ → ℕ → ℕ → Bytes → Bytes → Result (List Pixel)
unfolding row_pixels
decode_rows zero width bpp stride raw prev = ok []
decode_rows (suc n) width bpp stride [] prev = err index_error
decode_rows (suc n) width bpp stride (filter ∷ raw) prev =
    defilter_row filter (take stride raw) prev bpp >>= λ row. row_pixels width bpp row >>= λ ps.
    decode_rows n width bpp stride (drop stride raw) row >>= λ rest. ok (ps ++ rest)

-- `b"".join(chunks)`
unfoldable pub join : List Bytes → Bytes
join [] = []
join (c ∷ cs) = c ++ join cs

-- the rows of an image of a header
unfoldable pub decode_image : Parsed → Bytes → Result Image
unfolding decode_rows
decode_image p raw =
    let bpp = if p.color_type == 2 then 3 else 4 in
    decode_rows p.height p.width bpp (p.width * bpp) raw (replicate (p.width * bpp) 0) >>= λ ps.
    ok (record { width = p.width; height = p.height; pixels = ps })

-- the test of the chunks, and what follows it
unfoldable pub decode_chunks : Zlib → Parsed → List Bytes → Result Image
unfolding decode_image join
decode_chunks z p [] = err value_error
decode_chunks z p (c ∷ cs) = z.decompress (join (c ∷ cs)) >>= decode_image p

-- what follows the loop over the chunks
unfoldable pub decode : Zlib → Parsed → Result Image
unfolding decode_chunks
decode z p = decode_chunks z p p.idat_chunks

abbrev pub nothing_parsed : Parsed
nothing_parsed = record { width = 0; height = 0; color_type = 0; idat_chunks = [] }

-- `read_png_pixels`
unfoldable pub read_png_pixels : Zlib → Bytes → Result Image
unfolding read_chunks decode
read_png_pixels z png =
    if not (same_codes (take 8 png) png_signature)
    then err value_error
    else (read_chunks (length png) (drop 8 png) nothing_parsed >>= decode z)
