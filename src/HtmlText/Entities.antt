-- ===== src/HtmlText/Entities.antt =====
-- The five passes of `escapeHTML` (web/app.js, web/shared.js) against one table.
use new_a.Common.{
  ℕ, Bool, true, not, ◌&&◌, ◌||◌, [], ◌∷◌, ◌++◌, if◌then◌else◌, ◌==◌, Text, codes, ◌≡◌, refl, sym,
  ◌∙◌, arith, append_assoc, inl, inr, Bool-cases,
}
use new_a.SourceData.Escape.{replace_char}
use new_a.HtmlText.{ampersand, less_than, greater_than, double_quote, single_quote, escape_html}

abbrev pub entity : ℕ → Text
entity c =
    if c == ampersand
    then codes "&amp;"
    else (if c == less_than
        then codes "&lt;"
        else (if c == greater_than
            then codes "&gt;"
            else (if c == double_quote
                then codes "&quot;"
                else (if c == single_quote then codes "&#039;" else c ∷ []))))

-- Each character for itself.
abbrev pub entities : Text → Text
entities [] = []
entities (c ∷ s) = entity c ++ entities s

abbrev pub is_plain : ℕ → Bool
is_plain c = not (c == less_than || c == greater_than || c == double_quote || c == single_quote)

abbrev pub all_plain : Text → Bool
all_plain [] = true
all_plain (c ∷ s) = is_plain c && all_plain s

replace_char-append :
    (c : ℕ) (by a b : Text)
    → replace_char c by (a ++ b) ≡ replace_char c by a ++ replace_char c by b
unfolding replace_char
replace_char-append c by [] b = refl
replace_char-append c by (d ∷ a) b = elim (Bool-cases (d == c)) [
  | inl same ↦
      rw (same, replace_char-append c by a b)
        (sym (append_assoc by (replace_char c by a) (replace_char c by b)))
  | inr other ↦ rw (other, replace_char-append c by a b) refl
]

escape_html-append : (a b : Text) → escape_html (a ++ b) ≡ escape_html a ++ escape_html b
unfolding escape_html
escape_html-append a b = simp (replace_char-append)

escape_html-char : (c : ℕ) → escape_html (c ∷ []) ≡ entity c
unfolding escape_html replace_char
escape_html-char c = ground arith

all_plain-append : (a b : Text) → all_plain (a ++ b) ≡ (all_plain a && all_plain b)
all_plain-append [] b = refl
all_plain-append (c ∷ a) b = ground (arith, all_plain-append a b)

all_plain-entity : (c : ℕ) → all_plain (entity c) ≡ true
all_plain-entity c = ground arith

escape_html-entities : (s : Text) → escape_html s ≡ entities s
unfolding escape_html replace_char
escape_html-entities [] = refl
escape_html-entities (c ∷ s) =
    escape_html-append (c ∷ []) s ∙ rw (escape_html-char c, escape_html-entities s) refl

all_plain-entities : (s : Text) → all_plain (entities s) ≡ true
all_plain-entities [] = refl
all_plain-entities (c ∷ s) =
    rw (all_plain-append (entity c) (entities s), all_plain-entity c) (all_plain-entities s)

-- Escaping a text replaces each character by itself, by the five characters' entities, and so leaves
-- no angle bracket and no quote in it.
pub escape_html-eq-entities :
    (s : Text) → (escape_html s ≡ entities s) × (all_plain (escape_html s) ≡ true)
escape_html-eq-entities s =
    (escape_html-entities s, rw (escape_html-entities s) (all_plain-entities s))
