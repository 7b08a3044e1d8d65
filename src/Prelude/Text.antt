-- ===== src/Prelude/Text.antt =====
-- Texts: Python's f-strings as concatenations, `str` on non-negative integers, truth of a text.
use Prim.Native.Char.{code, nul}
use Prim.Native.String.{String, char_at, ◌++◌ as ◌⧺◌}
use vanpilot.Prelude.{
  ℕ, zero, suc, ◌+◌, ◌-◌, ◌/◌, ◌%◌, Bool, List, [], ◌∷◌, true, false, ◌&&◌, ◌||◌, ltb, leb, ◌==◌,
  nat_eq, string_eq, if◌then◌else◌,
}

-- The code points of a text. `String` has its own `[]` and `∷`.
abbrev pub codes : String → List ℕ
codes String.[] = []
codes (String.◌∷◌ c s) = code c ∷ codes s

-- `not s` on a `str`
abbrev pub is_blank : String → Bool
is_blank s = s == ""

-- `s or d` on a `str`
abbrev pub or_text : String → String → String
or_text s d = if is_blank s then d else s

-- an f-string, piece by piece
unfoldable pub concat : List String → String
concat [] = ""
concat (s ∷ rest) = s ⧺ concat rest

digit : ℕ → String
digit n =
    if n == 0
    then "0"
    else if n == 1
    then "1"
    else if n == 2
    then "2"
    else if n == 3
    then "3"
    else if n == 4
    then "4"
    else if n == 5
    then "5"
    else if n == 6
    then "6"
    else if n == 7
    then "7"
    else if n == 8
    then "8"
    else "9"

-- A number below 2 ^ fuel has at most `fuel` digits.
digits : ℕ → ℕ → String → String
unfolding digit
digits zero n out = out
digits (suc fuel) n out =
    let rest = digits fuel (n / 10) (digit (n % 10) ⧺ out) in
    if ltb n 10 then digit n ⧺ out else rest

-- `str(n)`; a number has no more digits than its own value plus one
unfoldable pub str : ℕ → String
unfolding digits
str n = digits (n + 1) n ""

-- `str.isspace` on one code point
is_space : ℕ → Bool
is_space c =
    (leb 9 c && leb c 13)
    || (leb 28 c && leb c 32)
    || c == 0x85
    || c == 0xa0
    || c == 0x1680
    || (leb 0x2000 c && leb c 0x200a)
    || c == 0x2028
    || c == 0x2029
    || c == 0x202f
    || c == 0x205f
    || c == 0x3000

unfoldable pub lstrip : List ℕ → List ℕ
unfolding is_space
lstrip [] = []
lstrip (c ∷ cs) = let rest = lstrip cs in if is_space c then rest else c ∷ cs

-- a space is dropped if nothing but spaces follows it
unfoldable pub rstrip : List ℕ → List ℕ
unfolding is_space
rstrip [] = []
rstrip (c ∷ cs) = elim (rstrip cs) [ [] ↦ if is_space c then [] else c ∷ [] | d ∷ ds ↦ c ∷ d ∷ ds ]

-- `str.strip`
unfoldable pub strip : List ℕ → List ℕ
unfolding lstrip rstrip
strip cs = rstrip (lstrip cs)

-- `str.lower` on ASCII; other code points stay
unfoldable pub lower : List ℕ → List ℕ
lower [] = []
lower (c ∷ cs) = (if leb b'A' c && leb c b'Z' then c + 32 else c) ∷ lower cs

-- `str.startswith`
unfoldable pub starts_with : List ℕ → List ℕ → Bool
starts_with cs [] = true
starts_with [] (p ∷ ps) = false
starts_with (c ∷ cs) (p ∷ ps) = c == p && starts_with cs ps

-- `p in s` on texts
unfoldable pub has_part : List ℕ → List ℕ → Bool
unfolding starts_with
has_part [] p = starts_with [] p
has_part (c ∷ cs) p = starts_with (c ∷ cs) p || has_part cs p

-- equality of code points lists
unfoldable pub same_codes : List ℕ → List ℕ → Bool
same_codes [] [] = true
same_codes (c ∷ cs) (d ∷ ds) = c == d && same_codes cs ds
same_codes _ _ = false

starts_newline : List ℕ → Bool
starts_newline [] = false
starts_newline (c ∷ cs) = c == 10

-- Opening a file as text: a carriage return, with or without a newline after it, reads as a newline.
unfoldable pub universal_newlines : List ℕ → List ℕ
unfolding starts_newline
universal_newlines [] = []
universal_newlines (c ∷ cs) =
    let rest = universal_newlines cs in
    if c == 13 then (if starts_newline cs then rest else 10 ∷ rest) else c ∷ rest

-- Puts a code point in front of the first line.
onto : ℕ → List (List ℕ) → List (List ℕ)
onto c [] = (c ∷ []) ∷ []
onto c (l ∷ ls) = (c ∷ l) ∷ ls

-- Iterating over an open text file: the lines, each with the newline that ends it.
unfoldable pub file_lines : List ℕ → List (List ℕ)
unfolding onto
file_lines [] = []
file_lines (c ∷ cs) = let rest = file_lines cs in if c == 10 then (c ∷ []) ∷ rest else onto c rest

ends_with_slash : List ℕ → Bool
ends_with_slash [] = false
ends_with_slash (c ∷ []) = c == b'/'
ends_with_slash (c ∷ d ∷ cs) = ends_with_slash (d ∷ cs)

starts_with_slash : List ℕ → Bool
starts_with_slash [] = false
starts_with_slash (c ∷ cs) = c == b'/'

-- `os.path.join` on two parts
unfoldable pub join_path : String → String → String
unfolding concat starts_with_slash ends_with_slash
join_path a b =
    if starts_with_slash (codes b) || is_blank a
    then b
    else if ends_with_slash (codes a)
    then concat (a ∷ b ∷ [])
    else concat (a ∷ "/" ∷ b ∷ [])

unfoldable pub join_paths : String → List String → String
unfolding join_path
join_paths a [] = a
join_paths a (b ∷ rest) = join_paths (join_path a b) rest

abbrev printable : String
printable =
    " !\"#$%&'()*+,-./0123456789:;<=>?@ABCDEFGHIJKLMNOPQRSTUVWXYZ[\\]^_`abcdefghijklmnopqrstuvwxyz{|}~"

-- A text of printable ASCII from its code points; any other code point becomes the NUL character.
unfoldable pub text_of : List ℕ → String
text_of [] = ""
text_of (c ∷ cs) =
    String.◌∷◌ (if leb 32 c && leb c 126 then char_at printable (c - 32) else nul) (text_of cs)
