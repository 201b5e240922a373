-- ===== src/SourceData/Escape/Quotes.antt =====
-- What the escaping of web/app.js does to apostrophes and to a backslash in front of `n`.
use new_a.Common.{
  ℕ, ◌+◌, ◌*◌, false, [], ◌∷◌, ◌++◌, length, ◌==◌, Text, occurrences, length-split, ◌≡◌, refl, ◌∙◌,
  arith,
}
use new_a.SourceData.Escape.{
  delimiter, backslash, line_feed, carriage_return, escaped_line_end, replace_char, replace_pair,
  escape_field, unescape_field, split_line,
}
use new_a.SourceData.Escape.RoundTrip.{replace_pair_skip, replace_pair_other, replace_pair_hit}

escape_field_literal :
    (t : Text) → escape_field (backslash ∷ b'n' ∷ t) ≡ backslash ∷ backslash ∷ b'n' ∷ escape_field t
unfolding escape_field
escape_field_literal t =
    let doubled = replace_char backslash (backslash ∷ backslash ∷ []) t in
    rw (replace_pair_other carriage_return line_feed b'n' escaped_line_end doubled refl)

unescape_field_lem :
    (s : Text)
    → unescape_field s
      ≡ replace_pair backslash backslash
          (backslash ∷ [])
          (replace_pair backslash b'n' (line_feed ∷ []) s)
unfolding unescape_field
unescape_field_lem s = refl

replace_pair_miss :
    (a b c d : ℕ) (by s : Text)
    → (d == b) ≡ false
    → replace_pair a b by (c ∷ d ∷ s) ≡ c ∷ replace_pair a b by (d ∷ s)
unfolding replace_pair
replace_pair_miss a b c d by s h = ground arith

-- A backslash in front of the letter `n` is read back as a backslash in front of a line feed,
-- whatever follows it.
unescape_field_literal :
    (t : Text)
    → unescape_field (escape_field (backslash ∷ b'n' ∷ t))
      ≡ backslash ∷ line_feed ∷ unescape_field (escape_field t)
unescape_field_literal t =
    let first = replace_pair backslash b'n' (line_feed ∷ []) (escape_field t) in
    cc (
      escape_field_literal t,
      unescape_field_lem (escape_field t),
      unescape_field_lem (backslash ∷ backslash ∷ b'n' ∷ escape_field t),
      replace_pair_skip (backslash ∷ b'n' ∷ escape_field t) refl,
      replace_pair_hit backslash b'n' (line_feed ∷ []) (escape_field t) refl,
      replace_pair_miss backslash backslash backslash line_feed (backslash ∷ []) first refl,
      replace_pair_other backslash backslash line_feed (backslash ∷ []) first refl,
    )

occurrences-append :
    (b : ℕ) (s t : Text) → occurrences b (s ++ t) ≡ occurrences b s + occurrences b t
occurrences-append b [] t = omega arith
occurrences-append b (c ∷ s) t = omega (arith, occurrences-append b s t)

occurrences-replace_char :
    (b c : ℕ) (by s : Text)
    → occurrences b by ≡ 0
    → (b == c) ≡ false
    → occurrences b (replace_char c by s) ≡ occurrences b s
unfolding replace_char
occurrences-replace_char b c by [] h k = refl
occurrences-replace_char b c by (d ∷ s) h k =
    ground
      (arith, occurrences-replace_char b c by s h k, occurrences-append b by (replace_char c by s))

occurrences-replace_pair :
    (b a c : ℕ) (by s : Text)
    → occurrences b by ≡ 0
    → (b == a) ≡ false
    → (b == c) ≡ false
    → occurrences b (replace_pair a c by s) ≡ occurrences b s
unfolding replace_pair
occurrences-replace_pair b a c by [] h k l = refl
occurrences-replace_pair b a c by (d ∷ []) h k l = refl
occurrences-replace_pair b a c by (d ∷ e ∷ s) h k l = ground (
  arith,
  occurrences-replace_pair b a c by s h k l,
  occurrences-replace_pair b a c by (e ∷ s) h k l,
  occurrences-append b by (replace_pair a c by s),
)

occurrences-doubled :
    (b : ℕ) (s : Text) → occurrences b (replace_char b (b ∷ b ∷ []) s) ≡ 2 * occurrences b s
unfolding replace_char
occurrences-doubled b [] = omega arith
occurrences-doubled b (d ∷ s) = ground (arith, occurrences-doubled b s)

occurrences-escape_field :
    (s : Text) → occurrences delimiter (escape_field s) ≡ 2 * occurrences delimiter s
unfolding escape_field
occurrences-escape_field s =
    let doubled = replace_char backslash (backslash ∷ backslash ∷ []) s in
    let no_crlf = replace_pair carriage_return line_feed escaped_line_end doubled in
    let no_lf = replace_char line_feed escaped_line_end no_crlf in
    occurrences-doubled delimiter (replace_char carriage_return escaped_line_end no_lf)
    ∙ omega (
      arith,
      occurrences-replace_char delimiter carriage_return escaped_line_end no_lf refl refl,
      occurrences-replace_char delimiter line_feed escaped_line_end no_crlf refl refl,
      occurrences-replace_pair delimiter carriage_return line_feed escaped_line_end doubled refl
          refl refl,
      occurrences-replace_char delimiter backslash (backslash ∷ backslash ∷ []) s refl refl,
    )

-- The doubling of apostrophes protects nothing: an escaped field splits into one field and two more
-- for each apostrophe that it holds.
pub length-split_line-escape_field :
    (s : Text) → length (split_line (escape_field s)) ≡ 2 * occurrences delimiter s + 1
unfolding split_line
length-split_line-escape_field s =
    omega (arith, length-split delimiter (escape_field s), occurrences-escape_field s)
