-- ===== src/PositionCode/Tests.antt =====
-- The codes of concrete fields of web/app.js.
use new_a.Common.{some, ◌≡◌, refl, arith, Text, codes, trim, is_space, starts_with}
use new_a.PositionCode.{
  extract_position_cipher, extract_original_code, extract_determinant_assignment,
}
use new_a.PositionCode.OriginalCode.{extract_original_code-with_codes}

abbrev field : Text
field = codes " 01-02(=Q)(T5)#x "

cipher_of_field : extract_position_cipher field ≡ codes "01-02"
unfolding extract_position_cipher is_space
cipher_of_field = refl

extract_original_code-with_codes_example :
    (extract_original_code field ≡ some (trim (codes "T5")))
    × (extract_determinant_assignment field ≡ trim (codes "Q"))
unfolding trim is_space starts_with
extract_original_code-with_codes_example =
    extract_original_code-with_codes field (codes "01-02") (codes "Q") (codes "T5") (codes "#x")
      refl (ground arith) (ground arith) (ground arith) refl
