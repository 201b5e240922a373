-- ===== src/Licenses/Tests.antt =====
-- Licences of web/app.js at concrete states.
use new_a.Common.{
  some, true, false, [], ◌∷◌, codes, ◌===◌, is_space, if◌then◌else◌, ◌≡◌, refl, arith,
}
use new_a.Licenses.{
  base, editor, gsn, other_tab, View, section_needs_license, required_license_ids,
  subsection_id_for_gsn_supplement, supplement_18, alrosa, rzd,
}
use new_a.Licenses.Required.{Requires, required_license_ids-Requires}
use new_a.Licenses.Gate.{Gate, failed, renewing, syncing, ask, navigate, resume, handle_events}
use new_a.Licenses.Gate.Late.{refusal, editor_blocked-handle_events}
use new_a.Licenses.Gate.Order.{shown, answers, shown-handle_events}

abbrev table : View
table = record {
  section = editor;
  base_tab = gsn;
  gsn_supplement = [];
  fgis_set_id = [];
  fgis_sets =
      record { id = codes "x"; name = codes "Цены РЖД" }
      ∷ record { id = codes "y"; name = codes "Прочие" }
      ∷ [];
  shows_table = true;
  editor_tab = codes "e";
  open_estimates = record { id = codes "e"; fgis_set_id = codes " x " } ∷ [];
}

abbrev user_tab : View
user_tab = record table { section = base; base_tab = other_tab }

abbrev idle : Gate
idle = record {
  signed_in = true;
  view = user_tab;
  version = 4;
  license_blocked = [];
  license_held = [];
  base_blocked = true;
  editor_blocked = false;
  timer_runs = false;
  pending = [];
}

abbrev behind : Gate
behind = record idle { pending = syncing 3 (ask (alrosa ∷ [])) ∷ renewing (ask (rzd ∷ [])) ∷ [] }

spaces_and_case : subsection_id_for_gsn_supplement (codes " Доп. 18") ≡ some supplement_18
unfolding subsection_id_for_gsn_supplement is_space ◌===◌
spaces_and_case = refl

table_ids : required_license_ids table ≡ supplement_18 ∷ rzd ∷ []
unfolding required_license_ids is_space ◌===◌
table_ids = refl

user_tab_free : section_needs_license user_tab ≡ false
unfolding section_needs_license ◌===◌
user_tab_free = refl

table_licensed : section_needs_license table ≡ true
unfolding section_needs_license ◌===◌
table_licensed = refl

required_license_ids-Requires_example :
    Requires (if section_needs_license table then 2 else 0) (required_license_ids table)
required_license_ids-Requires_example = required_license_ids-Requires table

editor_blocked-handle_events_example :
    ((handle_events
        (navigate user_tab ∷ navigate table ∷ resume 0 failed ∷ resume 0 refusal ∷ [])
        idle).editor_blocked
      ≡ true)
    × ((handle_events
          (navigate user_tab ∷ navigate table ∷ resume 1 refusal ∷ resume 0 failed ∷ [])
          idle).editor_blocked
        ≡ false)
editor_blocked-handle_events_example =
    editor_blocked-handle_events user_tab table supplement_18 (rzd ∷ []) failed idle refl refl
      user_tab_free table_licensed refl table_ids

shown-handle_events_example :
    shown (handle_events (answers ((1, failed) ∷ (0, refusal) ∷ [])) behind) ≡ shown behind
shown-handle_events_example =
    shown-handle_events behind ((1, failed) ∷ (0, refusal) ∷ []) (ground arith, (tt, tt))
