-- ===== src/SourceData/Escape/Tests.antt =====
-- The escaped fields of web/app.js at concrete texts.
use new_a.Common.{[], ◌∷◌, ◌≡◌, refl, arith, Text, codes, length}
use new_a.SourceData.Escape.{backslash, line_feed, escape_field, unescape_field, split_line}
use new_a.SourceData.Escape.RoundTrip.{unescape_field-escape_field}
use new_a.SourceData.Escape.Quotes.{length-split_line-escape_field}

-- Two lines, with a backslash in the second.
abbrev two_lines : Text
two_lines = b'a' ∷ line_feed ∷ b'b' ∷ backslash ∷ b'c' ∷ []

escaped_two_lines : escape_field two_lines ≡ codes "a\\nb\\\\c"
unfolding escape_field
escaped_two_lines = refl

unescape_field-escape_field_example : unescape_field (escape_field two_lines) ≡ two_lines
unescape_field-escape_field_example =
    unescape_field-escape_field two_lines (ground arith) (ground arith) (ground arith)

length-split_line-escape_field_example : length (split_line (escape_field (codes "d'Or"))) ≡ 3
length-split_line-escape_field_example = length-split_line-escape_field (codes "d'Or")
