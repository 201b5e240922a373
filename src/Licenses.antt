-- ===== src/Licenses.antt =====
-- The licences of parts of the database: which of them the shown section needs
-- (`sectionNeedsLicense`, `getRequiredLicenseSubsectionIds` and their helpers in web/app.js).
pub mod Gate
pub mod Required
mod Tests
use Prim.Native.String.{String}
use new_a.Common.{
  ℕ, ◌+◌, Bool, true, false, not, ◌&&◌, ◌||◌, List, [], ◌∷◌, ◌++◌, map, Option, none, some, find,
  leb, ◌==◌, if◌then◌else◌, Text, codes, ◌===◌, is_nonempty, starts_with, trim, strip, has,
}

-- `state.section`, and the tab of the section `base`. `other` is any further string.
pub data Section : Type 0 where
  base editor other_section : Section

pub data BaseTab : Type 0 where
  gsn fgis_prices other_tab : BaseTab

pub record FgisSet : Type 0 where
  pub id : Text
  pub name : Text

-- An open estimate: what the licences depend on.
pub record EditedEstimate : Type 0 where
  pub id : Text
  pub fgis_set_id : Text

pub record View : Type 0 where
  pub section : Section
  pub base_tab : BaseTab
  pub gsn_supplement : Text
  pub fgis_set_id : Text
  pub fgis_sets : List FgisSet
  pub shows_table : Bool
  pub editor_tab : Text
  pub open_estimates : List EditedEstimate

-- `toLowerCase` on the Latin and Cyrillic capitals; no other character becomes a Cyrillic letter or a
-- digit, and the results are only compared with texts of these.
abbrev lower_code : ℕ → ℕ
lower_code c =
    if (leb 65 c && leb c 90) || (leb 0x410 c && leb c 0x42f)
    then c + 32
    else (if leb 0x400 c && leb c 0x40f then c + 80 else c)

unfoldable pub to_lower_case : Text → Text
to_lower_case s = map lower_code s

-- `text.includes(part)`.
unfoldable pub includes : Text → Text → Bool
unfolding starts_with
includes part [] = starts_with part []
includes part (c ∷ cs) = starts_with part (c ∷ cs) || includes part cs

abbrev pub supplement_18 : Text
supplement_18 = codes "gsn_supplement_18"

abbrev pub alrosa : Text
alrosa = codes "fgis_alrosa_q2_2026"

abbrev pub rzd : Text
rzd = codes "fgis_rzd_q1_2026"

unfoldable pub subsection_id_for_gsn_supplement : Text → Option Text
unfolding trim to_lower_case strip ◌===◌
subsection_id_for_gsn_supplement code =
    if strip (to_lower_case (trim code)) === codes "доп.18" then some supplement_18 else none

abbrev pub subsection_id_by_name : Text → Option Text
subsection_id_by_name name =
    if includes (codes "алроса") name
    then some alrosa
    else (if includes (codes "ржд") name then some rzd else none)

abbrev pub subsection_id_of_set : Option FgisSet → Option Text
subsection_id_of_set none = none
subsection_id_of_set (some set) = subsection_id_by_name (to_lower_case set.name)

unfoldable pub subsection_id_for_fgis_set : List FgisSet → Text → Option Text
unfolding trim to_lower_case includes ◌===◌
subsection_id_for_fgis_set sets set_id =
    let id = trim set_id in
    if id === codes "alrosa-2026-q2"
    then some alrosa
    else (if id === codes "rzd-2026-q1"
        then some rzd
        else subsection_id_of_set (find (λ set. set.id === id) sets))

abbrev pub push_new : Option Text → List Text → List Text
push_new none ids = ids
push_new (some id) ids = if has ids id then ids else ids ++ id ∷ []

unfoldable pub editor_table_ids_for_fgis_set : List FgisSet → Text → List Text
unfolding subsection_id_for_fgis_set has
editor_table_ids_for_fgis_set sets fgis_set_id =
    push_new (subsection_id_for_fgis_set sets fgis_set_id) (supplement_18 ∷ [])

abbrev pub set_of_estimate : Option EditedEstimate → Text
set_of_estimate none = []
set_of_estimate (some e) = e.fgis_set_id

unfoldable pub editor_table_ids : View → List Text
unfolding editor_table_ids_for_fgis_set ◌===◌
editor_table_ids v =
    editor_table_ids_for_fgis_set v.fgis_sets
      (set_of_estimate (find (λ e. e.id === v.editor_tab) v.open_estimates))

abbrev pub shows_estimate_table : View → Bool
shows_estimate_table v = v.shows_table && not (v.editor_tab === codes "buffer")

abbrev pub base_needs : BaseTab → Bool
base_needs gsn = true
base_needs fgis_prices = true
base_needs other_tab = false

abbrev pub needs_in : Section → View → Bool
needs_in base v = base_needs v.base_tab
needs_in editor v = shows_estimate_table v
needs_in other_section v = false

unfoldable pub section_needs_license : View → Bool
unfolding ◌===◌
section_needs_license v = needs_in v.section v

abbrev pub singleton : Option Text → List Text
singleton none = []
singleton (some id) = id ∷ []

abbrev pub or_default : Text → Text
or_default code = if is_nonempty code then code else codes "доп.18"

abbrev pub base_ids : BaseTab → View → List Text
base_ids gsn v = singleton (subsection_id_for_gsn_supplement (or_default v.gsn_supplement))
base_ids fgis_prices v = singleton (subsection_id_for_fgis_set v.fgis_sets v.fgis_set_id)
base_ids other_tab v = []

abbrev pub ids_in : Section → View → List Text
ids_in base v = base_ids v.base_tab v
ids_in editor v = if shows_estimate_table v then editor_table_ids v else []
ids_in other_section v = []

unfoldable pub required_license_ids : View → List Text
unfolding subsection_id_for_gsn_supplement subsection_id_for_fgis_set editor_table_ids ◌===◌
required_license_ids v = ids_in v.section v
