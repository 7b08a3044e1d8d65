-- ===== src/Goldens/Filter/Laws.antt =====
-- Filtering a row as the PNG specification says and defiltering it gives the row back.
use vanpilot.Prelude.{
  ℕ, zero, suc, ◌+◌, ◌-◌, ◌/◌, ◌%◌, ◌≤◌, ◌<◌, ◌≡◌, refl, sym, ap, Bool-cases, ◌*◌, ◌&&◌, some, [],
  ◌∷◌, ◌++◌, arith, leb, ltb, length, length-append, get_elem?, get_or, inl, inr, if◌then◌else◌,
}
use mathlib.Core.List.{append-nil, append_assoc}
use vanpilot.Prelude.Int.{pos, ◌+ℤ◌, ◌-ℤ◌}
use vanpilot.Exec.{ok}
use vanpilot.Goldens.Filter.{
  Bytes, FilterType, none_, sub_, up_, average_, paeth_, filter_type, predict, defilter_from,
  defilter_as, defilter_row, abs, up_left_of, paeth_predictor,
}

abbrev pub AllBytes : Bytes → Type 0
AllBytes [] = Unit {0}
AllBytes (b ∷ bs) = (b < 256) × AllBytes bs

-- the number of a filter type
abbrev pub number : FilterType → ℕ
number none_ = 0
number sub_ = 1
number up_ = 2
number average_ = 3
number paeth_ = 4

-- how far apart two numbers are
abbrev pub distance : ℕ → ℕ → ℕ
distance a b = if leb a b then b - a else a - b

-- The one of the three that is nearest to a + b - c, the first of those that are equally near.
unfoldable pub nearest : ℕ → ℕ → ℕ → ℕ
nearest a b c =
    if leb (distance b c) (distance a c) && leb (distance b c) (distance (a + b) (2 * c))
    then a
    else (if leb (distance a c) (distance (a + b) (2 * c)) then b else c)

abs_left : (a b c : ℕ) → abs (pos a +ℤ pos b -ℤ pos c -ℤ pos a) ≡ distance b c
unfolding ◌+ℤ◌ ◌-ℤ◌
abs_left a b c = ground arith

abs_up : (a b c : ℕ) → abs (pos a +ℤ pos b -ℤ pos c -ℤ pos b) ≡ distance a c
unfolding ◌+ℤ◌ ◌-ℤ◌
abs_up a b c = ground arith

abs_up_left : (a b c : ℕ) → abs (pos a +ℤ pos b -ℤ pos c -ℤ pos c) ≡ distance (a + b) (2 * c)
unfolding ◌+ℤ◌ ◌-ℤ◌
abs_up_left a b c = ground arith

paeth_predictor-nearest : (a b c : ℕ) → paeth_predictor a b c ≡ nearest a b c
unfolding paeth_predictor nearest
paeth_predictor-nearest a b c = rw (abs_left a b c, abs_up a b c, abs_up_left a b c) refl

-- the prediction of the specification from the bytes to the left, above, and above to the left
abbrev prediction : FilterType → ℕ → ℕ → ℕ → ℕ
prediction none_ a b c = 0
prediction sub_ a b c = a
prediction up_ a b c = b
prediction average_ a b c = (a + b) / 2
prediction paeth_ a b c = nearest a b c

-- the byte `bpp` places before `i`
abbrev before : ℕ → ℕ → Bytes → ℕ
before bpp i row = if ltb i bpp then 0 else get_or row (i - bpp) 0

-- The filter of the specification, for the bytes from `i` on: from each byte of the row its
-- prediction by the bytes of the unfiltered image is taken away, modulo 256.
unfoldable pub filter_from : FilterType → ℕ → Bytes → Bytes → ℕ → Bytes → Bytes
filter_from ft bpp prev row i [] = []
filter_from ft bpp prev row i (x ∷ xs) =
    let p = prediction ft (before bpp i row) (get_or prev i 0) (before bpp i prev) in
    (x + 256 - p % 256) % 256 ∷ filter_from ft bpp prev row (i + 1) xs

unfoldable pub filter_row : FilterType → Bytes → Bytes → ℕ → Bytes
unfolding filter_from
filter_row ft row prev bpp = filter_from ft bpp prev row 0 row

get_elem?-get_or : (xs : Bytes) (i : ℕ) → i < length xs → get_elem? xs i ≡ some (get_or xs i 0)
get_elem?-get_or [] i h = absurd (omega arith)
get_elem?-get_or (x ∷ xs) zero h = refl
get_elem?-get_or (x ∷ xs) (suc i) h = get_elem?-get_or xs i (omega arith)

get_or-append : (xs ys : Bytes) (i : ℕ) → i < length xs → get_or (xs ++ ys) i 0 ≡ get_or xs i 0
get_or-append [] ys i h = absurd (omega arith)
get_or-append (x ∷ xs) ys zero h = refl
get_or-append (x ∷ xs) ys (suc i) h = get_or-append xs ys i (omega arith)

before-append :
    (bpp i : ℕ) (xs ys : Bytes)
    → 0 < bpp
    → i ≡ length xs
    → before bpp i (xs ++ ys) ≡ before bpp i xs
before-append bpp i xs ys h e = elim (Bool-cases (ltb i bpp)) [
  | inl near ↦ ground (arith, near)
  | inr far ↦ rw far (get_or-append xs ys (i - bpp) (ground (arith, far)))
]

up_left_of-before :
    (bpp i : ℕ) (prev : Bytes) → i < length prev → up_left_of bpp i prev ≡ ok (before bpp i prev)
up_left_of-before bpp i prev h = elim (Bool-cases (ltb i bpp)) [
  | inl near ↦ ground (arith, near)
  | inr far ↦ rw (far, get_elem?-get_or prev (i - bpp) (omega (arith, h))) refl
]

predict-prediction :
    (ft : FilterType) (bpp i : ℕ) (prev xs ys : Bytes)
    → 0 < bpp
    → i ≡ length xs
    → i < length prev
    → predict ft bpp prev i xs
      ≡ ok (prediction ft (before bpp i (xs ++ ys)) (get_or prev i 0) (before bpp i prev))
unfolding predict
predict-prediction none_ bpp i prev xs ys pos_ e h = refl
predict-prediction sub_ bpp i prev xs ys pos_ e h = ap ok (sym (before-append bpp i xs ys pos_ e))
predict-prediction up_ bpp i prev xs ys pos_ e h = rw (get_elem?-get_or prev i h) refl
predict-prediction average_ bpp i prev xs ys pos_ e h =
    rw (get_elem?-get_or prev i h, before-append bpp i xs ys pos_ e) refl
predict-prediction paeth_ bpp i prev xs ys pos_ e h =
    rw
      (
        get_elem?-get_or prev i h,
        up_left_of-before bpp i prev h,
        before-append bpp i xs ys pos_ e,
        paeth_predictor-nearest (before bpp i xs) (get_or prev i 0) (before bpp i prev),
      )
      refl

defilter_from-filter_from :
    (ft : FilterType) (bpp : ℕ) (prev xs ys : Bytes)
    → 0 < bpp
    → AllBytes ys
    → length xs + length ys ≤ length prev
    → defilter_from ft bpp prev (length xs) xs (filter_from ft bpp prev (xs ++ ys) (length xs) ys)
      ≡ ok (xs ++ ys)
unfolding defilter_from filter_from
defilter_from-filter_from ft bpp prev xs [] pos_ bytes room = ap ok (sym (append-nil xs))
defilter_from-filter_from ft bpp prev xs (y ∷ ys) pos_ (small, bytes) room =
    let p =
      prediction ft (before bpp (length xs) (xs ++ y ∷ ys)) (get_or prev (length xs) 0)
        (before bpp (length xs) prev) in
    let back : ((y + 256 - p % 256) % 256 + p) % 256 ≡ y = omega (arith, small) in
    let ih = defilter_from-filter_from ft bpp prev (xs ++ y ∷ []) ys pos_ bytes in
    let len : length (xs ++ y ∷ []) ≡ length xs + 1 = length-append xs (y ∷ []) in
    let whole : (xs ++ y ∷ []) ++ ys ≡ xs ++ y ∷ ys = append_assoc xs (y ∷ []) ys in
    let room_left : length (xs ++ y ∷ []) + length ys ≤ length prev = omega (arith, len, room) in
    let next : defilter_from ft bpp prev (length xs + 1) (xs ++ y ∷ [])
          (filter_from ft bpp prev (xs ++ y ∷ ys) (length xs + 1) ys)
        ≡ ok (xs ++ y ∷ ys) =
      rw (← len, ← whole) (ih room_left) in
    rw (predict-prediction ft bpp (length xs) prev xs (y ∷ ys) pos_ refl (omega (arith, room)))
      (rw back next)

filter_type-number : (ft : FilterType) → filter_type (number ft) ≡ ok ft
unfolding filter_type
filter_type-number none_ = refl
filter_type-number sub_ = refl
filter_type-number up_ = refl
filter_type-number average_ = refl
filter_type-number paeth_ = refl

filter_from-none_ :
    (bpp i : ℕ) (prev row ys : Bytes) → AllBytes ys → filter_from none_ bpp prev row i ys ≡ ys
unfolding filter_from
filter_from-none_ bpp i prev row [] bytes = refl
filter_from-none_ bpp i prev row (y ∷ ys) (small, bytes) =
    let same : (y + 256 - 0) % 256 ≡ y = omega (arith, small) in
    rw (same, filter_from-none_ bpp (i + 1) prev row ys bytes) refl

defilter_as-filter_row :
    (ft : FilterType) (row prev : Bytes) (bpp : ℕ)
    → 0 < bpp
    → AllBytes row
    → length row ≤ length prev
    → defilter_as ft (filter_row ft row prev bpp) prev bpp ≡ ok row
unfolding defilter_as filter_row
defilter_as-filter_row none_ row prev bpp pos_ bytes room =
    ap ok (filter_from-none_ bpp 0 prev row row bytes)
defilter_as-filter_row sub_ row prev bpp pos_ bytes room =
    defilter_from-filter_from sub_ bpp prev [] row pos_ bytes (omega (arith, room))
defilter_as-filter_row up_ row prev bpp pos_ bytes room =
    defilter_from-filter_from up_ bpp prev [] row pos_ bytes (omega (arith, room))
defilter_as-filter_row average_ row prev bpp pos_ bytes room =
    defilter_from-filter_from average_ bpp prev [] row pos_ bytes (omega (arith, room))
defilter_as-filter_row paeth_ row prev bpp pos_ bytes room =
    defilter_from-filter_from paeth_ bpp prev [] row pos_ bytes (omega (arith, room))

-- `_defilter_row` undoes the row filters of the PNG specification: for each of the five filter
-- types, a positive number of bytes per pixel and a row of bytes that is no longer than the
-- previous row, it returns the row that was filtered.
pub defilter_row-filter_row :
    (ft : FilterType) (row prev : Bytes) (bpp : ℕ)
    → 0 < bpp
    → AllBytes row
    → length row ≤ length prev
    → defilter_row (number ft) (filter_row ft row prev bpp) prev bpp ≡ ok row
unfolding defilter_row
defilter_row-filter_row ft row prev bpp pos_ bytes room =
    rw (filter_type-number ft) (defilter_as-filter_row ft row prev bpp pos_ bytes room)
