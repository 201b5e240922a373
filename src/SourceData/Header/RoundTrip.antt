-- ===== src/SourceData/Header/RoundTrip.antt =====
-- Reading the line Э that web/app.js writes.
use new_a.Common.{
  returned, ◌>>=◌, ℕ, ◌*◌, ◌^◌, ◌<◌, lt→ltb, List, [], ◌∷◌, ◌++◌, none, Text, codes, is_space,
  trim_end-append, strip, strip-trim, join, split-join, Lacks, take_while-append, drop_while-append,
  is_digit, digits, digits-AllTrue, decimal_value-digits, drop_suffix, every-AllTrue, AllTrue,
  arith, ◌≡◌, refl, ap, ◌∙◌,
}
use new_a.Quantity.Lexer.{replace_comma}
use new_a.Quantity.Parse.Precision.{drop_last_char-append}
use new_a.SourceData.Escape.{delimiter}
use new_a.SourceData.Header.{
  SourceNumber, exact, times_ten_text, Estimate, letter_estimate, or_empty,
  normalize_source_data_fields, derive_numeric_id, serialize_header_line,
}
use new_a.SourceData.Header.Parse.{
  trim_record_line, match_legacy_header, parse_numeric_id, parse_header_body, parse_header_line,
}

-- A record is read up to its asterisk.
pub trim_record_line-append :
    (s : Text) (number : ℕ) → trim_record_line (s ++ b'*' ∷ []) number ≡ returned s
unfolding trim_record_line is_space
trim_record_line-append s number =
    rw (trim_record_line, trim_end-append s b'*' refl, drop_last_char-append b'*' s)

strip_digits : (s : Text) → AllTrue is_digit s → strip s ≡ s
unfolding strip is_space
strip_digits [] h = refl
strip_digits (c ∷ s) h = ground (arith, strip_digits s h.1)

replace_comma_digits : (s : Text) → AllTrue is_digit s → replace_comma s ≡ s
unfolding replace_comma
replace_comma_digits [] h = refl
replace_comma_digits (c ∷ s) h = ground (arith, replace_comma_digits s h.1)

parse_numeric_id-digits :
    (other_tenth : Text → ℕ) (n : ℕ)
    → 0 < n
    → n * 10 < 2 ^ 53
    → parse_numeric_id other_tenth (digits (n * 10)) ≡ n
unfolding parse_numeric_id
parse_numeric_id-digits other_tenth n h b =
    let ds = digits (n * 10) in
    let all = digits-AllTrue (n * 10) in
    rw
      (
        strip-trim ds,
        strip_digits ds all,
        replace_comma_digits ds all,
        every-AllTrue is_digit ds all,
        decimal_value-digits (n * 10),
        lt→ltb (n * 10) (2 ^ 53) b,
      )
      (ground arith)

-- Four apostrophes behind a text without one are not five.
drop_suffix_four :
    (s : Text) → Lacks delimiter s → drop_suffix (codes "'''''") (s ++ codes "''''") ≡ none
unfolding drop_suffix
drop_suffix_four [] h = refl
drop_suffix_four (c ∷ s) h = rw (drop_suffix_four s h.1) (ground arith)

match_legacy_header-none :
    (ds doc flags district : Text)
    → AllTrue is_digit ds
    → Lacks delimiter doc
    → Lacks delimiter flags
    → Lacks delimiter district
    → match_legacy_header
        (join delimiter (ds ∷ doc ∷ flags ∷ [] ∷ district ∷ [] ∷ [] ∷ [] ∷ [] ∷ []))
      ≡ none
unfolding match_legacy_header join
match_legacy_header-none ds [] [] district h k l m =
    let rest = codes "''''" ++ (district ++ codes "''''") in
    rw
      (
        match_legacy_header,
        take_while-append is_digit ds rest h refl,
        drop_while-append is_digit ds rest h refl,
        drop_suffix_four district m,
      )
      (ground arith)
match_legacy_header-none ds [] (c ∷ flags) district h k l m =
    let rest =
      delimiter ∷ delimiter ∷ c ∷ (flags ++ delimiter ∷ delimiter ∷ (district ++ codes "''''")) in
    rw
      (
        match_legacy_header,
        take_while-append is_digit ds rest h refl,
        drop_while-append is_digit ds rest h refl,
      )
      (ground arith)
match_legacy_header-none ds (c ∷ doc) flags district h k l m =
    let tail = flags ++ delimiter ∷ delimiter ∷ (district ++ codes "''''") in
    let rest = delimiter ∷ c ∷ (doc ++ delimiter ∷ tail) in
    rw
      (
        match_legacy_header,
        take_while-append is_digit ds rest h refl,
        drop_while-append is_digit ds rest h refl,
      )
      (ground arith)

Lacks-digits : (s : Text) → AllTrue is_digit s → Lacks delimiter s
Lacks-digits [] h = tt
Lacks-digits (c ∷ s) h = (ground arith, Lacks-digits s h.1)

header_fields : Text → Text → Text → Text → List Text
header_fields ds doc flags district = ds ∷ doc ∷ flags ∷ [] ∷ district ∷ [] ∷ [] ∷ [] ∷ [] ∷ []

parse_header_body-join :
    (other_tenth : Text → ℕ) (n : ℕ) (doc flags district : Text)
    → 0 < n
    → n * 10 < 2 ^ 53
    → Lacks delimiter doc
    → Lacks delimiter flags
    → Lacks delimiter district
    → parse_header_body other_tenth
        (join delimiter (header_fields (digits (n * 10)) doc flags district))
      ≡ record {
        numeric_id = n;
        document_set = doc;
        calculation_flags = flags;
        district = district;
      }
unfolding parse_header_body header_fields
parse_header_body-join other_tenth n doc flags district h b k l m =
    let ds = digits (n * 10) in
    let all = digits-AllTrue (n * 10) in
    rw (
      parse_header_body,
      match_legacy_header-none ds doc flags district all k l m,
      split-join delimiter ds (doc ∷ flags ∷ [] ∷ district ∷ [] ∷ [] ∷ [] ∷ [] ∷ [])
          (Lacks-digits ds all, (k, (l, (tt, (m, (tt, (tt, (tt, (tt, tt))))))))),
      parse_numeric_id-digits other_tenth n h b,
    )

serialize_header_line_lem :
    (large_text : SourceNumber → Text) (e : Estimate)
    → serialize_header_line large_text e
      ≡ letter_estimate
        ∷ (join delimiter (
              header_fields
                (times_ten_text large_text (derive_numeric_id (normalize_source_data_fields e)))
                (or_empty (normalize_source_data_fields e).document_set)
                (or_empty (normalize_source_data_fields e).calculation_flags)
                (normalize_source_data_fields e).district)
            ++ b'*' ∷ [])
unfolding serialize_header_line header_fields
serialize_header_line_lem large_text e = refl

times_ten_text_exact :
    (large_text : SourceNumber → Text) (number : SourceNumber) (n : ℕ)
    → number ≡ exact n
    → n * 10 < 2 ^ 53
    → times_ten_text large_text number ≡ digits (n * 10)
unfolding times_ten_text
times_ten_text_exact large_text number n h b = rw (h, lt→ltb (n * 10) (2 ^ 53) b) refl

parse_header_line_letter :
    (other_tenth : Text → ℕ) (body : Text)
    → parse_header_line other_tenth (letter_estimate ∷ body)
      ≡ returned (parse_header_body other_tenth body)
unfolding parse_header_line
parse_header_line_letter other_tenth body = refl

-- The line Э is read back: where the number of the estimate is positive and ten times it below
-- 2 ^ 53, and the document set, the flags and the district hold no apostrophe, reading the line that is
-- written for the estimate gives the number, the document set, the flags and the district, none of
-- them mistaken for the older form of the line.
pub parse_header_line-serialize_header_line :
    (other_tenth : Text → ℕ) (large_text : SourceNumber → Text) (e : Estimate) (n : ℕ)
    → derive_numeric_id (normalize_source_data_fields e) ≡ exact n
    → 0 < n
    → n * 10 < 2 ^ 53
    → Lacks delimiter (or_empty (normalize_source_data_fields e).document_set)
    → Lacks delimiter (or_empty (normalize_source_data_fields e).calculation_flags)
    → Lacks delimiter (normalize_source_data_fields e).district
    → (trim_record_line (serialize_header_line large_text e) 1 >>= parse_header_line other_tenth)
      ≡ returned (record {
        numeric_id = n;
        document_set = or_empty (normalize_source_data_fields e).document_set;
        calculation_flags = or_empty (normalize_source_data_fields e).calculation_flags;
        district = (normalize_source_data_fields e).district;
      })
parse_header_line-serialize_header_line other_tenth large_text e n number h b k l m =
    let v = normalize_source_data_fields e in
    let doc = or_empty v.document_set in
    let flags = or_empty v.calculation_flags in
    let body_of : Text → Text = λ ds. join delimiter (header_fields ds doc flags v.district) in
    let body = body_of (digits (n * 10)) in
    let parse = parse_header_line other_tenth in
    ap (λ s. trim_record_line s 1 >>= parse)
      (serialize_header_line_lem large_text e
        ∙ ap (λ ds. letter_estimate ∷ (body_of ds ++ b'*' ∷ []))
            (times_ten_text_exact large_text (derive_numeric_id v) n number b))
    ∙ ap (λ r. r >>= parse) (trim_record_line-append (letter_estimate ∷ body) 1)
    ∙ parse_header_line_letter other_tenth body
    ∙ ap returned (parse_header_body-join other_tenth n doc flags v.district h b k l m)
