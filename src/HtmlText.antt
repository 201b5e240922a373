-- ===== src/HtmlText.antt =====
-- Texts in the pages: `escapeHTML` (web/app.js, and the same function in web/shared.js).
pub mod Entities
mod Tests
use Prim.Native.String.{String}
use new_a.Common.{ℕ, Bool, List, [], ◌∷◌, ◌||◌, ◌==◌, Text, codes}
use new_a.SourceData.Escape.{replace_char}

-- The characters that end a text or an attribute of a page.
abbrev pub ampersand : ℕ
ampersand = 38

abbrev pub less_than : ℕ
less_than = 60

abbrev pub greater_than : ℕ
greater_than = 62

abbrev pub double_quote : ℕ
double_quote = 34

abbrev pub single_quote : ℕ
single_quote = 39

-- The argument is `String(value)`.
unfoldable pub escape_html : Text → Text
unfolding replace_char
escape_html value =
    let amp = replace_char ampersand (codes "&amp;") value in
    let lt = replace_char less_than (codes "&lt;") amp in
    let gt = replace_char greater_than (codes "&gt;") lt in
    let quot = replace_char double_quote (codes "&quot;") gt in
    replace_char single_quote (codes "&#039;") quot
