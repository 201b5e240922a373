-- ===== src/SourceData/Header/PlaceRoundTrip.antt =====
-- Reading the line Ю that web/app.js writes.
use new_a.Common.{
  returned, ◌>>=◌, List, [], ◌∷◌, ◌++◌, Text, join, split-join, Lacks, ◌≡◌, refl, ap, ◌∙◌,
}
use new_a.ProjectTree.{Tree}
use new_a.SourceData.Escape.{delimiter}
use new_a.SourceData.Header.{
  Estimate, Place, letter_construction, or_empty, construction_object_fields,
  serialize_construction_line,
}
use new_a.SourceData.Header.Parse.{trim_record_line, parse_construction_line}
use new_a.SourceData.Header.RoundTrip.{trim_record_line-append}

-- The line Ю, field by field.
construction_fields : Place → Text → Text → Text → List Text
construction_fields place chapter code title =
    [] ∷ [] ∷ place.construction_name ∷ place.construction_code ∷ place.object_code
    ∷ place.object_name ∷ [] ∷ chapter ∷ code ∷ title ∷ [] ∷ [] ∷ [] ∷ []

-- No field of the line Ю holds an apostrophe.
pub record PlaceLacks (place : Place) (e : Estimate) : Type 0 where
  pub construction_name : Lacks delimiter place.construction_name
  pub construction_code : Lacks delimiter place.construction_code
  pub object_code : Lacks delimiter place.object_code
  pub object_name : Lacks delimiter place.object_name
  pub chapter : Lacks delimiter (or_empty e.summary_chapter_no)
  pub code : Lacks delimiter e.code
  pub title : Lacks delimiter e.title

serialize_construction_line_lem :
    (t : Tree) (e : Estimate)
    → serialize_construction_line t e
      ≡ letter_construction
        ∷ (join delimiter (
              construction_fields
                (construction_object_fields t e)
                (or_empty e.summary_chapter_no)
                e.code
                e.title)
            ++ b'*' ∷ [])
unfolding serialize_construction_line construction_fields
serialize_construction_line_lem t e = refl

parse_construction_line-join :
    (place : Place) (e : Estimate)
    → PlaceLacks place e
    → parse_construction_line (
        letter_construction
        ∷ join delimiter (construction_fields place (or_empty e.summary_chapter_no) e.code e.title))
      ≡ returned (record {
        construction_name = place.construction_name;
        construction_code = place.construction_code;
        object_code = place.object_code;
        object_name = place.object_name;
        summary_chapter_no = or_empty e.summary_chapter_no;
        code = e.code;
        title = e.title;
      })
unfolding parse_construction_line construction_fields
parse_construction_line-join place e h = rw (
    split-join delimiter []
      ([]
        ∷ place.construction_name
        ∷ place.construction_code
        ∷ place.object_code
        ∷ place.object_name
        ∷ []
        ∷ or_empty e.summary_chapter_no
        ∷ e.code
        ∷ e.title
        ∷ []
        ∷ []
        ∷ []
        ∷ [])
      (
        tt,
        (
          tt,
          (
            h.construction_name,
            (
              h.construction_code,
              (
                h.object_code,
                (h.object_name, (tt, (h.chapter, (h.code, (h.title, (tt, (tt, (tt, tt)))))))),
              ),
            ),
          ),
        ),
      ))

-- The line Ю is read back: where none of its fields holds an apostrophe, reading the line that is
-- written for an estimate gives the names and codes of its construction and object (those stored in
-- the estimate, or else those of the tree), the chapter, the code and the title.
pub parse_construction_line-serialize_construction_line :
    (t : Tree) (e : Estimate)
    → PlaceLacks (construction_object_fields t e) e
    → (trim_record_line (serialize_construction_line t e) 2 >>= parse_construction_line)
      ≡ returned (record {
        construction_name = (construction_object_fields t e).construction_name;
        construction_code = (construction_object_fields t e).construction_code;
        object_code = (construction_object_fields t e).object_code;
        object_name = (construction_object_fields t e).object_name;
        summary_chapter_no = or_empty e.summary_chapter_no;
        code = e.code;
        title = e.title;
      })
parse_construction_line-serialize_construction_line t e h =
    let place = construction_object_fields t e in
    let fields = construction_fields place (or_empty e.summary_chapter_no) e.code e.title in
    let body = join delimiter fields in
    ap (λ s. trim_record_line s 2 >>= parse_construction_line) (serialize_construction_line_lem t e)
    ∙ ap (λ r. r >>= parse_construction_line)
        (trim_record_line-append (letter_construction ∷ body) 2)
    ∙ parse_construction_line-join place e h
