-- ===== src/EditorLines/Tests.antt =====
-- The buffer and the lines of an estimate of web/app.js at a concrete state, over the natural numbers.
use new_a.Common.{List, [], ◌∷◌, some, length, Text, codes, ◌===◌, ◌≡◌, refl, arith, modify_at}
use new_a.Number.Naturals.{naturals}
use new_a.EditorLines.{other, Node, Line, Position, OpenEstimate, Editor, up, down}
use new_a.EditorLines.Buffer.Refinement.{
  IsKeyed, items_by_key, Change, upsert_gsn, upsert_position, remove_position,
}
use new_a.EditorLines.Buffer.Refinement.Runs.{run_all, run_all_map, items_by_key-run_all}
use new_a.EditorLines.Lines.{
  set_items, move_estimate_line, upsert_user_position_in_estimate,
  remove_user_position_from_estimate, estimate_index, add_line_target_index,
}
use new_a.EditorLines.Lines.Inverse.{
  move_estimate_line-move_estimate_line,
  remove_user_position_from_estimate-upsert_user_position_in_estimate,
}

abbrev node : Node
node = record { code = codes "01-01"; original_code = []; name = codes "Pit"; unit = codes "m3" }

abbrev position : Position naturals
position = record {
  id = codes "p1";
  code = codes "7";
  name = codes "Crane";
  unit = codes "h";
  cost = some 5;
}

abbrev line : Text → Line naturals
line id = record {
  id = id;
  kind = codes "position";
  code = [];
  name = id;
  unit = [];
  quantity = some 1;
  unit_price = some 2;
  total = some 2;
  source = other;
  source_id = [];
}

abbrev estimate : OpenEstimate naturals
estimate = record {
  id = codes "e1";
  items = line (codes "a") ∷ line (codes "b") ∷ line (codes "c") ∷ [];
}

abbrev editor : Editor naturals
editor = record {
  buffer = [];
  user_positions = position ∷ [];
  open_estimates = estimate ∷ [];
  add_line_target = codes "e1";
  text_drafts = [];
  expanded = [];
}

abbrev changes : List (Change naturals)
changes =
    upsert_gsn node (some 3)
    ∷ upsert_position (codes "p1") (some 2)
    ∷ upsert_gsn node (some 4)
    ∷ remove_position (codes "p1")
    ∷ []

buffer_after : length (run_all naturals changes editor).buffer ≡ 1
unfolding run_all ◌===◌
buffer_after = refl

items_by_key-run_all_example :
    IsKeyed naturals (run_all naturals changes editor).buffer
    × (items_by_key naturals (run_all naturals changes editor).buffer
        ≡ run_all_map naturals editor.user_positions changes (items_by_key naturals editor.buffer))
items_by_key-run_all_example =
    items_by_key-run_all naturals changes editor (λ source id. omega arith)

move_estimate_line-move_estimate_line_example :
    ((move_estimate_line naturals (codes "e1") (codes "b") down editor).open_estimates
      ≡ modify_at 0
          (set_items naturals (line (codes "a") ∷ line (codes "c") ∷ line (codes "b") ∷ []))
          editor.open_estimates)
    × ((move_estimate_line naturals
          (codes "e1")
          (codes "b")
          up
          (move_estimate_line naturals (codes "e1") (codes "b") down editor)).open_estimates
        ≡ editor.open_estimates)
unfolding estimate_index ◌===◌
move_estimate_line-move_estimate_line_example =
    move_estimate_line-move_estimate_line naturals (codes "e1") (codes "b") editor 0 estimate
      (line (codes "a") ∷ []) [] (line (codes "b")) (line (codes "c")) refl refl refl refl refl refl

remove_user_position_from_estimate-upsert_user_position_in_estimate_example :
    (remove_user_position_from_estimate naturals (codes "p1") (
      upsert_user_position_in_estimate naturals
        (codes "p1")
        (some 2)
        (codes "line_1")
        editor)).open_estimates
    ≡ editor.open_estimates
unfolding add_line_target_index ◌===◌
remove_user_position_from_estimate-upsert_user_position_in_estimate_example =
    remove_user_position_from_estimate-upsert_user_position_in_estimate naturals position (some 2)
      (codes "line_1") editor 0 estimate refl refl refl refl
