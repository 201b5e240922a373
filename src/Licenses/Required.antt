-- ===== src/Licenses/Required.antt =====
-- How many licences a section needs at once (`getRequiredLicenseSubsectionIds` of web/app.js).
use new_a.Common.{
  no_repeats, ℕ, ◌≤◌, Bool, true, ◌||◌, List, [], ◌∷◌, Option, none, some, length, every,
  if◌then◌else◌, Text, codes, ◌===◌, has, trim, strip, find, ◌≡◌, refl, arith, ◌⊎◌, inl, inr,
  Bool-cases,
}
use new_a.Licenses.{
  Section, base, editor, other_section, BaseTab, gsn, fgis_prices, other_tab, FgisSet, View,
  supplement_18, alrosa, rzd, to_lower_case, includes, subsection_id_for_gsn_supplement,
  subsection_id_for_fgis_set, editor_table_ids_for_fgis_set, editor_table_ids,
  section_needs_license, shows_estimate_table, required_license_ids, subsection_id_by_name,
  subsection_id_of_set, needs_in, ids_in, base_needs, base_ids, push_new, singleton, or_default,
  set_of_estimate,
}

-- A price set has no licence or one of the two.
unfoldable FgisId : Option Text → Type 0
FgisId o = (o ≡ none) ⊎ (o ≡ some alrosa) ⊎ (o ≡ some rzd)

by_name_cases : (name : Text) → FgisId (subsection_id_by_name name)
unfolding FgisId includes
by_name_cases name = elim (Bool-cases (includes (codes "алроса") name)) [
  | inl h ↦ rw h (inr (inl refl))
  | inr h ↦ elim (Bool-cases (includes (codes "ржд") name)) [
    | inl k ↦ rw (h, k) (inr (inr refl))
    | inr k ↦ rw (h, k) (inl refl)
  ]
]

of_set_cases : (o : Option FgisSet) → FgisId (subsection_id_of_set o)
unfolding FgisId
of_set_cases none = inl refl
of_set_cases (some set) = by_name_cases (to_lower_case set.name)

fgis_cases : (sets : List FgisSet) (id : Text) → FgisId (subsection_id_for_fgis_set sets id)
unfolding subsection_id_for_fgis_set FgisId
fgis_cases sets id = elim (Bool-cases (trim id === codes "alrosa-2026-q2")) [
  | inl h ↦ rw h (inr (inl refl))
  | inr h ↦ elim (Bool-cases (trim id === codes "rzd-2026-q1")) [
    | inl k ↦ rw (h, k) (inr (inr refl))
    | inr k ↦ rw (h, k) (of_set_cases (find (λ set. set.id === trim id) sets))
  ]
]

abbrev pub is_known : Text → Bool
is_known id = id === supplement_18 || id === alrosa || id === rzd

-- At most so many licences, each one that the program knows, and none twice.
pub record Requires (bound : ℕ) (ids : List Text) : Type 0 where
  pub bounded : length ids ≤ bound
  pub known : every is_known ids ≡ true
  pub apart : no_repeats ids ≡ true

Requires-none : (bound : ℕ) → Requires bound []
unfolding no_repeats
Requires-none bound = record { bounded = omega arith; known = refl; apart = refl }

Requires-singleton : (o : Option Text) → FgisId o → Requires 2 (singleton o)
unfolding FgisId no_repeats has ◌===◌
Requires-singleton o (inl h) = rw h (Requires-none 2)
Requires-singleton o (inr (inl h)) =
    rw h record { bounded = omega arith; known = refl; apart = refl }
Requires-singleton o (inr (inr h)) =
    rw h record { bounded = omega arith; known = refl; apart = refl }

Requires-push_new : (o : Option Text) → FgisId o → Requires 2 (push_new o (supplement_18 ∷ []))
unfolding FgisId no_repeats has ◌===◌
Requires-push_new o (inl h) = rw h record { bounded = omega arith; known = refl; apart = refl }
Requires-push_new o (inr (inl h)) =
    rw h record { bounded = omega arith; known = refl; apart = refl }
Requires-push_new o (inr (inr h)) =
    rw h record { bounded = omega arith; known = refl; apart = refl }

Requires-gsn : (code : Text) → Requires 2 (singleton (subsection_id_for_gsn_supplement code))
unfolding subsection_id_for_gsn_supplement no_repeats has ◌===◌
Requires-gsn code = elim (Bool-cases (strip (to_lower_case (trim code)) === codes "доп.18")) [
  | inl h ↦ rw h record { bounded = omega arith; known = refl; apart = refl }
  | inr h ↦ rw h (Requires-none 2)
]

Requires-editor_table_ids : (v : View) → Requires 2 (editor_table_ids v)
unfolding editor_table_ids editor_table_ids_for_fgis_set
Requires-editor_table_ids v =
    Requires-push_new _ (
      fgis_cases v.fgis_sets (set_of_estimate (find (λ e. e.id === v.editor_tab) v.open_estimates)))

Requires-base_ids :
    (t : BaseTab) (v : View) → Requires (if base_needs t then 2 else 0) (base_ids t v)
Requires-base_ids gsn v = Requires-gsn (or_default v.gsn_supplement)
Requires-base_ids fgis_prices v = Requires-singleton _ (fgis_cases v.fgis_sets v.fgis_set_id)
Requires-base_ids other_tab v = Requires-none 0

Requires-ids_in :
    (section : Section) (v : View)
    → Requires (if needs_in section v then 2 else 0) (ids_in section v)
Requires-ids_in base v = Requires-base_ids v.base_tab v
Requires-ids_in editor v = elim (Bool-cases (shows_estimate_table v)) [
  | inl h ↦ rw h (Requires-editor_table_ids v)
  | inr h ↦ rw h (Requires-none 0)
]
Requires-ids_in other_section v = Requires-none 0

-- A section that needs no licence asks for none, and one that does asks for at most two, which are
-- different and among the three licences that the program knows.
pub required_license_ids-Requires :
    (v : View) → Requires (if section_needs_license v then 2 else 0) (required_license_ids v)
unfolding section_needs_license required_license_ids
required_license_ids-Requires v = Requires-ids_in v.section v
