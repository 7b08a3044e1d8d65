-- ===== src/Goldens/Png/Words.antt =====
-- Chunks of PNG files: what a chunk is written as is what the reader takes off the bytes.
use mathlib.Core.List.{append_assoc}
use vanpilot.Prelude.{
  ℕ, suc, ◌+◌, ◌/◌, ◌%◌, ◌<◌, ◌≡◌, refl, ap, [], ◌∷◌, ◌++◌, arith, length, length-append, take,
  drop, nat_eq,
}
use vanpilot.Exec.{ok}
use vanpilot.Goldens.Filter.{Bytes}
use vanpilot.Goldens.Png.{
  Zlib, Parsed, big_endian, pack_u32, unpack_u32, chunk, on_chunk, read_chunks,
}

pub take-append : (xs ys : Bytes) → take (length xs) (xs ++ ys) ≡ xs
take-append [] ys = refl
take-append (x ∷ xs) ys = ap (λ l. x ∷ l) (take-append xs ys)

pub drop-append : (xs ys : Bytes) → drop (length xs) (xs ++ ys) ≡ ys
drop-append [] ys = refl
drop-append (x ∷ xs) ys = drop-append xs ys

-- the four bytes of a number
unfoldable pub word : ℕ → Bytes
word n = n / 16777216 ∷ n / 65536 % 256 ∷ n / 256 % 256 ∷ n % 256 ∷ []

pub pack_u32-word : (n : ℕ) → n < 4294967296 → pack_u32 n ≡ ok (word n)
unfolding pack_u32 word
pack_u32-word n h = ground arith

pub big_endian-word :
    (n : ℕ)
    → n < 4294967296
    → big_endian (n / 16777216) (n / 65536 % 256) (n / 256 % 256) (n % 256) ≡ n
big_endian-word n h = omega arith

-- a chunk as it is written
unfoldable pub chunk_bytes : Zlib → Bytes → Bytes → Bytes
chunk_bytes z chunk_type data_ =
    word (length data_) ++ chunk_type ++ data_ ++ word (z.crc32 (chunk_type ++ data_) % 4294967296)

pub chunk-chunk_bytes :
    (z : Zlib) (chunk_type data_ : Bytes)
    → length data_ < 4294967296
    → chunk z chunk_type data_ ≡ ok (chunk_bytes z chunk_type data_)
unfolding chunk chunk_bytes word
chunk-chunk_bytes z chunk_type data_ h =
    let crc = z.crc32 (chunk_type ++ data_) % 4294967296 in
    rw
      (
        pack_u32-word (length data_) h,
        pack_u32-word crc (omega arith),
        append_assoc chunk_type data_ (word crc),
      )
      refl

-- the bytes of a chunk after its length and its type, and what follows
abbrev pub body : Bytes → ℕ → Bytes → Bytes
body data_ crc rest = data_ ++ word crc ++ rest

drop-body :
    (data_ : Bytes) (crc : ℕ) (rest : Bytes) → drop (4 + length data_) (body data_ crc rest) ≡ rest
unfolding word
drop-body data_ crc rest =
    let len : 4 + length data_ ≡ length (data_ ++ word crc) =
      omega (arith, length-append data_ (word crc)) in
    rw len (drop-append (data_ ++ word crc) rest)

take-body :
    (data_ : Bytes) (crc : ℕ) (rest : Bytes) → take (length data_) (body data_ crc rest) ≡ data_
take-body data_ crc rest =
    rw (append_assoc data_ (word crc) rest) (take-append data_ (word crc ++ rest))

drop_eight :
    (n : ℕ) (a b c d e f g h : ℕ) (rest : Bytes)
    → drop (12 + n) (a ∷ b ∷ c ∷ d ∷ e ∷ f ∷ g ∷ h ∷ rest) ≡ drop (4 + n) rest
drop_eight n a b c d e f g h rest =
    let count : 12 + n ≡ suc (suc (suc (suc (suc (suc (suc (suc (4 + n)))))))) = omega arith in
    rw count refl

-- What the loop does with a chunk of any type, as `chunk` writes it.
pub read_chunks-step :
    (n crc t₀ t₁ t₂ t₃ : ℕ) (data_ rest : Bytes) (p : Parsed)
    → length data_ < 4294967296
    → read_chunks (suc n) (word (length data_) ++ t₀ ∷ t₁ ∷ t₂ ∷ t₃ ∷ body data_ crc rest) p
      ≡ on_chunk (t₀ ∷ t₁ ∷ t₂ ∷ t₃ ∷ []) data_ p (read_chunks n rest)
unfolding read_chunks unpack_u32 word
read_chunks-step n crc t₀ t₁ t₂ t₃ data_ rest p small =
    let len = length data_ in
    rw
      (
        big_endian-word len small,
        take-body data_ crc rest,
        drop_eight len (len / 16777216) (len / 65536 % 256) (len / 256 % 256) (len % 256) t₀ t₁ t₂
            t₃ (body data_ crc rest),
        drop-body data_ crc rest,
      )
      refl
