-- ===== src/District/Tests.antt =====
-- Districts of web/app.js at concrete texts.
use new_a.Common.{[], ◌≡◌, refl, arith, Text, codes, trim, is_space}
use new_a.District.{
  parse_int, normalize_region_code, normalize_zone, parse_district, format_district,
}
use new_a.District.RoundTrip.{parse_district-format_district}

abbrev no_text : Text → Text
no_text code = []

written : format_district no_text (codes " 077 ") (codes "3 zone") ≡ codes "77.3"
unfolding format_district is_space
written = refl

parse_district-format_district_example :
    parse_district no_text (format_district no_text (codes " 077 ") (codes "3 zone")) ≡ record {
      region_code = normalize_region_code no_text (codes " 077 ");
      zone = normalize_zone (codes "3 zone");
    }
unfolding parse_int trim is_space
parse_district-format_district_example =
    parse_district-format_district no_text (codes " 077 ") (codes "3 zone") 77 refl (ground arith)
