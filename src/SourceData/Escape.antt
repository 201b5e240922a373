-- ===== src/SourceData/Escape.antt =====
-- `escapeEstimateTextField`, `unescapeEstimateTextField` and `splitEstimateTextLine` (web/app.js).
pub mod RoundTrip
pub mod Quotes
mod Tests
use new_a.Common.{
  ℕ, Bool, true, false, ◌&&◌, List, [], ◌∷◌, ◌++◌, ◌==◌, if◌then◌else◌, Text, codes, split,
}

abbrev pub delimiter : ℕ
delimiter = b'\''

abbrev pub backslash : ℕ
backslash = b'\\'

abbrev pub line_feed : ℕ
line_feed = 10

abbrev pub carriage_return : ℕ
carriage_return = 13

-- The two characters `\n` of an escaped line end.
abbrev pub escaped_line_end : Text
escaped_line_end = backslash ∷ b'n' ∷ []

-- `text.replace(/c/g, by)`.
unfoldable pub replace_char : ℕ → Text → Text → Text
replace_char c by [] = []
replace_char c by (d ∷ ds) = if d == c then by ++ replace_char c by ds else d ∷ replace_char c by ds

-- `text.replace(/ab/g, by)` for two characters and one.
unfoldable pub replace_pair : ℕ → ℕ → Text → Text → Text
replace_pair a b by [] = []
replace_pair a b by (c ∷ []) = c ∷ []
replace_pair a b by (c ∷ d ∷ ds) =
    if c == a && d == b then by ++ replace_pair a b by ds else c ∷ replace_pair a b by (d ∷ ds)

unfoldable pub escape_field : Text → Text
unfolding replace_char replace_pair
escape_field value =
    let doubled = replace_char backslash (backslash ∷ backslash ∷ []) value in
    let without_crlf = replace_pair carriage_return line_feed escaped_line_end doubled in
    let without_lf = replace_char line_feed escaped_line_end without_crlf in
    let without_cr = replace_char carriage_return escaped_line_end without_lf in
    replace_char delimiter (delimiter ∷ delimiter ∷ []) without_cr

unfoldable pub unescape_field : Text → Text
unfolding replace_pair
unescape_field value =
    replace_pair backslash backslash (backslash ∷ [])
      (replace_pair backslash b'n' (line_feed ∷ []) value)

unfoldable pub split_line : Text → List Text
unfolding split
split_line line = split delimiter line
