-- ===== src/PositionCode.antt =====
-- The codes in the first field of a position's line: `extractSourceDataPositionCipher`,
-- `extractSourceDataPositionOriginalCode` and `extractSourceDataDeterminantAssignment` (web/app.js).
pub mod Cipher
pub mod OriginalCode
mod Tests
use Prim.Native.String.{String}
use new_a.Common.{
  ℕ, zero, suc, ◌+◌, Bool, true, false, not, ◌&&◌, List, [], ◌∷◌, ◌++◌, Option, none, some, ◌==◌,
  ltb, if◌then◌else◌, length, take, Text, codes, is_nonempty, starts_with, trim,
}

abbrev pub position_cipher_separators : List ℕ
position_cipher_separators = b'(' ∷ b' ' ∷ b'#' ∷ []

-- `text.indexOf(b)`; `none` is -1.
unfoldable pub index_of : ℕ → Text → Option ℕ
index_of b [] = none
index_of b (c ∷ cs) =
    if c == b then some 0 else elim (index_of b cs) [ some i ↦ some (suc i) | none ↦ none ]

-- The smaller cut, if the separator is there.
abbrev pub cut_before : Option ℕ → ℕ → ℕ
cut_before none cut_at = cut_at
cut_before (some index) cut_at = if ltb index cut_at then index else cut_at

-- The loop over the separators.
unfoldable pub cut_loop : List ℕ → Text → ℕ → ℕ
unfolding index_of
cut_loop [] raw cut_at = cut_at
cut_loop (separator ∷ separators) raw cut_at =
    cut_loop separators raw (cut_before (index_of separator raw) cut_at)

unfoldable pub extract_position_cipher : Text → Text
unfolding cut_loop trim
extract_position_cipher first_field =
    let raw = trim first_field in
    if is_nonempty raw
    then trim (take (cut_loop position_cipher_separators raw (length raw)) raw)
    else []

-- What stands before and after the first place of a character: `indexOf` with the slices there.
unfoldable pub split_first : ℕ → Text → Option (Text × Text)
split_first b [] = none
split_first b (c ∷ cs) =
    if c == b
    then some ([], cs)
    else elim (split_first b cs) [ some (before, after) ↦ some (c ∷ before, after) | none ↦ none ]

-- The `while` loop; `searchFrom` is the text that is left. Each round takes a unit of fuel, and
-- `none` is a lack of it.
unfoldable pub original_code_loop : ℕ → Text → Option Text
unfolding split_first starts_with trim
original_code_loop zero left = none
original_code_loop (suc f) left = elim (split_first b'(' left) [
  | none ↦ some []
  | some (before, opened) ↦ elim (split_first b')' opened) [
    | none ↦ some []
    | some (inner, rest) ↦
        if starts_with (codes "=") (trim inner)
        then elim (is_nonempty rest) [ true ↦ original_code_loop f rest | false ↦ some [] ]
        else some (trim inner)
  ]
]

unfoldable pub extract_original_code : Text → Option Text
unfolding original_code_loop trim
extract_original_code cipher_field =
    let raw = trim cipher_field in original_code_loop (suc (length raw)) raw

-- `text.indexOf("(=")`, and what follows the two characters.
unfoldable pub after_assignment_sign : Text → Option Text
after_assignment_sign [] = none
after_assignment_sign (c ∷ []) = none
after_assignment_sign (c ∷ d ∷ ds) =
    if c == b'(' && d == b'=' then some ds else after_assignment_sign (d ∷ ds)

unfoldable pub extract_determinant_assignment : Text → Text
unfolding after_assignment_sign split_first trim
extract_determinant_assignment cipher_field = elim (after_assignment_sign (trim cipher_field)) [
  | none ↦ []
  | some opened ↦ elim (split_first b')' opened) [ none ↦ [] | some (inner, rest) ↦ trim inner ]
]
