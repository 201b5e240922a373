-- ===== src/EditorLines/Controls/Tests.antt =====
-- The quantity controls of web/app.js at concrete states.
use new_a.Common.{
  Bool, false, [], ◌∷◌, none, some, leb, ltb, codes, ◌===◌, starts_with, is_space, ◌≡◌, refl, arith,
}
use new_a.Number.Naturals.{naturals}
use new_a.EditorLines.{Position, Editor, user_position}
use new_a.EditorLines.Buffer.Refinement.{run, items_by_key}
use new_a.EditorLines.Keys.{user_position_buffer_key}
use new_a.EditorLines.Controls.{
  Controls, plus, on_buffer, estimate_upsert_position, parse_quantity_input, handle_gesture,
}
use new_a.EditorLines.Controls.Linked.{quantity_change, item_for, handle_gesture-linked}

abbrev positive : naturals.Num → Bool
positive none = false
positive (some n) = ltb 0 n

abbrev at_most_one : naturals.Num → Bool
at_most_one none = false
at_most_one (some n) = leb n 1

abbrev untouched : Controls naturals positive at_most_one
untouched = record { quantities = λ key. none; sources = λ key. none }

abbrev pipe : Position naturals
pipe = record { id = codes "p"; code = codes "Т1"; name = codes "n"; unit = []; cost = some 3 }

abbrev empty_editor : Editor naturals
empty_editor = record {
  buffer = [];
  user_positions = pipe ∷ [];
  open_estimates = [];
  add_line_target = [];
  text_drafts = [];
  expanded = [];
}

spaces_inside : parse_quantity_input naturals positive at_most_one (codes " 1 2 ") ≡ some (some 12)
unfolding parse_quantity_input is_space
spaces_inside = refl

zero_refused : parse_quantity_input naturals positive at_most_one (codes "0") ≡ none
unfolding parse_quantity_input is_space
zero_refused = refl

in_an_estimate :
    (handle_gesture naturals positive at_most_one
      (codes "estimate:e:user-position:p")
      (plus (some (codes "4")))
      untouched).1
    ≡ some (estimate_upsert_position (codes "p") (some 5))
unfolding handle_gesture is_space ◌===◌
in_an_estimate = refl

handle_gesture-linked_example :
    (((handle_gesture naturals positive at_most_one
            (user_position_buffer_key (codes "p"))
            (plus (some (codes "4")))
            untouched).0
          ).quantities
        (user_position_buffer_key (codes "p"))
      ≡ some (some 5))
    × ((handle_gesture naturals positive at_most_one
          (user_position_buffer_key (codes "p"))
          (plus (some (codes "4")))
          untouched).1
        ≡ some
            (on_buffer (quantity_change naturals positive at_most_one (some (some 5)) (codes "p"))))
    × (items_by_key naturals
          (run naturals
            (quantity_change naturals positive at_most_one (some (some 5)) (codes "p"))
            empty_editor).buffer
          user_position
          (codes "p")
        ≡ item_for naturals positive at_most_one pipe (some (some 5)))
unfolding user_position_buffer_key handle_gesture is_space starts_with ◌===◌
handle_gesture-linked_example =
    handle_gesture-linked naturals positive at_most_one (codes "p") (plus (some (codes "4")))
      (some (some 5)) untouched empty_editor pipe refl refl (λ source id. omega arith) refl
