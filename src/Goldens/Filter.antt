-- ===== src/Goldens/Filter.antt =====
-- The row filters of PNG: `_paeth_predictor` and `_defilter_row` of goldens/golden_diff.py.
pub mod Laws
use vanpilot.Prelude.{
  ℕ, ◌+◌, ◌-◌, ◌/◌, ◌%◌, Bool, Option, none, some, List, [], ◌∷◌, ◌++◌, leb, ltb, ◌&&◌, get_elem?,
  get_or, ◌==◌, nat_eq, if◌then◌else◌,
}
use vanpilot.Prelude.Int.{ℤ, pos, negsuc, ◌+ℤ◌, ◌-ℤ◌}
use vanpilot.Exec.{Result, ok, err, index_error, value_error}
use vanpilot.Exec.Fallible.{◌>>=◌, require}

abbrev pub Bytes : Type 0
Bytes = List ℕ

abbrev pub abs : ℤ → ℕ
abs (pos n) = n
abs (negsuc n) = n + 1

-- `_paeth_predictor`
unfoldable pub paeth_predictor : ℕ → ℕ → ℕ → ℕ
paeth_predictor a b c =
    let p = pos a +ℤ pos b -ℤ pos c in
    let pa = abs (p -ℤ pos a) in
    let pb = abs (p -ℤ pos b) in
    let pc = abs (p -ℤ pos c) in if leb pa pb && leb pa pc then a else (if leb pb pc then b else c)

-- `row[i - bpp] if i >= bpp else 0`, where the row holds the bytes before `i`
abbrev pub left_of : ℕ → ℕ → Bytes → ℕ
left_of bpp i row = if ltb i bpp then 0 else get_or row (i - bpp) 0

-- `prev_row[i - bpp] if i >= bpp else 0`
abbrev pub up_left_of : ℕ → ℕ → Bytes → Result ℕ
up_left_of bpp i prev = if ltb i bpp then ok 0 else require index_error (get_elem? prev (i - bpp))

pub data FilterType : Type 0 where
  none_ sub_ up_ average_ paeth_ : FilterType

-- the `if` chain on the filter byte
unfoldable pub filter_type : ℕ → Result FilterType
filter_type n =
    if n == 0
    then ok none_
    else (if n == 1
        then ok sub_
        else (if n == 2
            then ok up_
            else (if n == 3 then ok average_ else (if n == 4 then ok paeth_ else err value_error))))

-- what is added to the byte at `i`
unfoldable pub predict : FilterType → ℕ → Bytes → ℕ → Bytes → Result ℕ
unfolding paeth_predictor
predict none_ bpp prev i row = ok 0
predict sub_ bpp prev i row = ok (left_of bpp i row)
predict up_ bpp prev i row = require index_error (get_elem? prev i)
predict average_ bpp prev i row = do
  up ← require index_error (get_elem? prev i)
  ok ((left_of bpp i row + up) / 2)
predict paeth_ bpp prev i row = do
  up ← require index_error (get_elem? prev i)
  up_left ← up_left_of bpp i prev
  ok (paeth_predictor (left_of bpp i row) up up_left)

-- the loop over the bytes from `i` on, where `row` holds the bytes before it
unfoldable pub defilter_from : FilterType → ℕ → Bytes → ℕ → Bytes → Bytes → Result Bytes
unfolding predict
defilter_from ft bpp prev i row [] = ok row
defilter_from ft bpp prev i row (x ∷ raw) = predict ft bpp prev i row >>= λ p.
    defilter_from ft bpp prev (i + 1) (row ++ (x + p) % 256 ∷ []) raw

-- the branches of `_defilter_row`
unfoldable pub defilter_as : FilterType → Bytes → Bytes → ℕ → Result Bytes
unfolding defilter_from
defilter_as none_ raw prev bpp = ok raw
defilter_as sub_ raw prev bpp = defilter_from sub_ bpp prev 0 [] raw
defilter_as up_ raw prev bpp = defilter_from up_ bpp prev 0 [] raw
defilter_as average_ raw prev bpp = defilter_from average_ bpp prev 0 [] raw
defilter_as paeth_ raw prev bpp = defilter_from paeth_ bpp prev 0 [] raw

-- `_defilter_row`
unfoldable pub defilter_row : ℕ → Bytes → Bytes → ℕ → Result Bytes
unfolding defilter_as filter_type
defilter_row ft raw_row prev_row bpp = filter_type ft >>= λ f. defilter_as f raw_row prev_row bpp
