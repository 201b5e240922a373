-- ===== src/SourceData/Escape/RoundTrip.antt =====
-- Escaping a field and unescaping it (web/app.js).
use new_a.Common.{ℕ, Bool, true, false, ◌&&◌, [], ◌∷◌, ◌++◌, ◌==◌, Text, Lacks, ◌≡◌, refl, arith}
use new_a.SourceData.Escape.{
  delimiter, backslash, line_feed, carriage_return, escaped_line_end, replace_char, replace_pair,
  escape_field, unescape_field,
}

abbrev pub starts_with_n : Text → Bool
starts_with_n [] = false
starts_with_n (c ∷ cs) = c == b'n'

-- No backslash stands directly in front of the letter `n`.
abbrev pub HasNoEscape : Text → Type 0
HasNoEscape [] = Unit
HasNoEscape (c ∷ cs) = ((c == backslash && starts_with_n cs) ≡ false) × HasNoEscape cs

pub replace_char-Lacks : (c : ℕ) (by s : Text) → Lacks c s → replace_char c by s ≡ s
unfolding replace_char
replace_char-Lacks c by [] h = refl
replace_char-Lacks c by (d ∷ s) h = ground (arith, replace_char-Lacks c by s h.1)

Lacks-append : (b : ℕ) (s t : Text) → Lacks b s → Lacks b t → Lacks b (s ++ t)
Lacks-append b [] t h k = k
Lacks-append b (c ∷ s) t h k = (h.0, Lacks-append b s t h.1 k)

pub Lacks-replace_char :
    (b c : ℕ) (by s : Text) → Lacks b by → Lacks b s → Lacks b (replace_char c by s)
unfolding replace_char
Lacks-replace_char b c by [] h k = tt
Lacks-replace_char b c by (d ∷ s) h k =
    let rest = Lacks-replace_char b c by s h k.1 in
    ground (arith, rest, Lacks-append b by (replace_char c by s) h rest, k.0)

replace_pair-Lacks : (a b : ℕ) (by s : Text) → Lacks a s → replace_pair a b by s ≡ s
unfolding replace_pair
replace_pair-Lacks a b by [] h = refl
replace_pair-Lacks a b by (c ∷ []) h = refl
replace_pair-Lacks a b by (c ∷ d ∷ s) h = ground (arith, replace_pair-Lacks a b by (d ∷ s) h.1)

-- The text with its backslashes doubled and its line feeds written as two characters.
abbrev marked : Text → Text
marked s =
    replace_char line_feed escaped_line_end (replace_char backslash (backslash ∷ backslash ∷ []) s)

doubled-Lacks :
    (b : ℕ) (s : Text)
    → Lacks b (backslash ∷ backslash ∷ [])
    → Lacks b s
    → Lacks b (replace_char backslash (backslash ∷ backslash ∷ []) s)
doubled-Lacks b s h k = Lacks-replace_char b backslash (backslash ∷ backslash ∷ []) s h k

marked-Lacks :
    (b : ℕ) (s : Text)
    → Lacks b (backslash ∷ backslash ∷ [])
    → Lacks b escaped_line_end
    → Lacks b s
    → Lacks b (marked s)
marked-Lacks b s h k l = Lacks-replace_char b line_feed escaped_line_end _ k (doubled-Lacks b s h l)

pub escape_field-marked :
    (s : Text) → Lacks carriage_return s → Lacks delimiter s → escape_field s ≡ marked s
unfolding escape_field
escape_field-marked s h k = rw (
  replace_pair-Lacks carriage_return line_feed escaped_line_end
      (replace_char backslash (backslash ∷ backslash ∷ []) s)
      (doubled-Lacks carriage_return s (ground arith) h),
  replace_char-Lacks carriage_return escaped_line_end (marked s)
      (marked-Lacks carriage_return s (ground arith) (ground arith) h),
  replace_char-Lacks delimiter (delimiter ∷ delimiter ∷ []) (marked s)
      (marked-Lacks delimiter s (ground arith) (ground arith) k),
)

-- The first pass of `unescape_field` undoes the marks of the line feeds.
starts_with_n-marked : (s : Text) → starts_with_n s ≡ false → starts_with_n (marked s) ≡ false
unfolding replace_char
starts_with_n-marked [] h = refl
starts_with_n-marked (c ∷ s) h = ground arith

pub replace_pair_skip :
    (s : Text)
    → starts_with_n s ≡ false
    → replace_pair backslash b'n' (line_feed ∷ []) (backslash ∷ s)
      ≡ backslash ∷ replace_pair backslash b'n' (line_feed ∷ []) s
unfolding replace_pair
replace_pair_skip [] h = refl
replace_pair_skip (c ∷ s) h = ground arith

pub replace_pair_other :
    (a b c : ℕ) (by s : Text)
    → (c == a) ≡ false
    → replace_pair a b by (c ∷ s) ≡ c ∷ replace_pair a b by s
unfolding replace_pair
replace_pair_other a b c by [] h = refl
replace_pair_other a b c by (d ∷ s) h = rw h

pub replace_pair_hit :
    (a b : ℕ) (by s : Text)
    → (a == a && b == b) ≡ true
    → replace_pair a b by (a ∷ b ∷ s) ≡ by ++ replace_pair a b by s
unfolding replace_pair
replace_pair_hit a b by s h = rw h

unmark :
    (s : Text)
    → HasNoEscape s
    → replace_pair backslash b'n' (line_feed ∷ []) (marked s)
      ≡ replace_char backslash (backslash ∷ backslash ∷ []) s
unfolding replace_char
unmark [] h = unfold replace_pair in refl
unmark (c ∷ s) h = ground (
  arith,
  unmark s h.1,
  replace_pair_hit backslash b'n' (line_feed ∷ []) (marked s) refl,
  replace_pair_skip (backslash ∷ marked s) refl,
  replace_pair_skip (marked s),
  starts_with_n-marked s,
  replace_pair_other backslash b'n' c (line_feed ∷ []) (marked s),
)

undouble :
    (s : Text)
    → replace_pair backslash backslash
        (backslash ∷ [])
        (replace_char backslash (backslash ∷ backslash ∷ []) s)
      ≡ s
unfolding replace_char
undouble [] = unfold replace_pair in refl
undouble (c ∷ s) =
    let doubled = replace_char backslash (backslash ∷ backslash ∷ []) s in
    ground (
      arith,
      undouble s,
      replace_pair_hit backslash backslash (backslash ∷ []) doubled refl,
      replace_pair_other backslash backslash c (backslash ∷ []) doubled,
    )

-- A field is read back as it was written if it holds no apostrophe and no carriage return, and no
-- backslash directly in front of the letter `n`: unescaping its escaped text gives the field.
-- Backslashes elsewhere and line feeds are allowed.
pub unescape_field-escape_field :
    (s : Text)
    → Lacks carriage_return s
    → Lacks delimiter s
    → HasNoEscape s
    → unescape_field (escape_field s) ≡ s
unfolding unescape_field
unescape_field-escape_field s h k n = rw (escape_field-marked s h k, unmark s n, undouble s)
