-- ===== src/HtmlText/Tests.antt =====
-- Escaping of web/app.js on concrete texts.
use new_a.Common.{true, codes, ◌≡◌, refl}
use new_a.SourceData.Escape.{replace_char}
use new_a.HtmlText.{escape_html}
use new_a.HtmlText.Entities.{entities, all_plain, escape_html-eq-entities}

-- The ampersand of an entity is not escaped again by a later pass.
tag_in_quotes : escape_html (codes "<b a='&'>") ≡ codes "&lt;b a=&#039;&amp;&#039;&gt;"
unfolding escape_html replace_char
tag_in_quotes = refl

-- A text that is escaped already is escaped once more.
escaped_twice : escape_html (codes "&quot;") ≡ codes "&amp;quot;"
unfolding escape_html replace_char
escaped_twice = refl

escape_html-eq-entities_example :
    (escape_html (codes "<a>\"") ≡ entities (codes "<a>\""))
    × (all_plain (escape_html (codes "<a>\"")) ≡ true)
escape_html-eq-entities_example = escape_html-eq-entities (codes "<a>\"")
