-- ===== src/SourceData/Header/Tests.antt =====
-- The lines Э and Ю of web/app.js at a concrete estimate.
use new_a.Common.{returned, ◌>>=◌, ℕ, [], none, some, ◌≡◌, refl, arith, Text, codes}
use new_a.ProjectTree.{Tree}
use new_a.SourceData.Header.{
  SourceNumber, Estimate, or_empty, normalize_source_data_fields, derive_numeric_id,
  construction_object_fields, serialize_header_line, serialize_construction_line,
}
use new_a.SourceData.Header.Parse.{trim_record_line, parse_header_line, parse_construction_line}
use new_a.SourceData.Header.RoundTrip.{parse_header_line-serialize_header_line}
use new_a.SourceData.Header.PlaceRoundTrip.{parse_construction_line-serialize_construction_line}

abbrev plan : Estimate
plan = record {
  id = codes "session_est_1719999999999";
  object_id = [];
  numeric_id = none;
  document_set = none;
  calculation_flags = some (codes "12");
  summary_chapter_no = none;
  header_code1 = some (codes "7");
  header_code2 = none;
  ordinal = some (codes "2");
  district = codes "77.1";
  construction_name = some (codes "House");
  construction_code = none;
  object_name = none;
  object_code = some (codes "02-01");
  code = codes "1";
  title = codes "Roof";
}

abbrev empty_tree : Tree
empty_tree = record { constructions = []; objects = []; estimates = [] }

abbrev no_text : SourceNumber → Text
no_text n = []

header_text : serialize_header_line no_text plan ≡ codes "Э17199999990'7'12''77.1''''*"
unfolding serialize_header_line
header_text = refl

abbrev zero_tenth : Text → ℕ
zero_tenth s = 0

parse_header_line-serialize_header_line_example :
    (trim_record_line (serialize_header_line no_text plan) 1 >>= parse_header_line zero_tenth)
    ≡ returned (record {
      numeric_id = 1719999999;
      document_set = or_empty (normalize_source_data_fields plan).document_set;
      calculation_flags = or_empty (normalize_source_data_fields plan).calculation_flags;
      district = (normalize_source_data_fields plan).district;
    })
unfolding derive_numeric_id normalize_source_data_fields
parse_header_line-serialize_header_line_example =
    parse_header_line-serialize_header_line zero_tenth no_text plan 1719999999 refl (omega arith)
      (omega arith) (ground arith) (ground arith) (ground arith)

parse_construction_line-serialize_construction_line_example :
    (trim_record_line (serialize_construction_line empty_tree plan) 2 >>= parse_construction_line)
    ≡ returned (record {
      construction_name = (construction_object_fields empty_tree plan).construction_name;
      construction_code = (construction_object_fields empty_tree plan).construction_code;
      object_code = (construction_object_fields empty_tree plan).object_code;
      object_name = (construction_object_fields empty_tree plan).object_name;
      summary_chapter_no = or_empty plan.summary_chapter_no;
      code = plan.code;
      title = plan.title;
    })
unfolding construction_object_fields
parse_construction_line-serialize_construction_line_example =
    parse_construction_line-serialize_construction_line empty_tree plan (ground arith)
