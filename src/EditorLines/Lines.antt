-- ===== src/EditorLines/Lines.antt =====
-- The operations on the lines of an open estimate: `getAddLineTargetEstimate`,
-- `estimateLineFromUserPosition`, `upsertUserPositionInEstimate`, `removeUserPositionFromEstimate`,
-- `removeGSNFromEstimate`, `deleteEstimateLine`, `moveEstimateLine` and `addEstimateLine` (web/app.js).
pub mod Back
pub mod Moved
pub mod Inverse
use new_a.Common.{
  ℕ, Bool, true, false, not, ◌&&◌, List, [], ◌∷◌, ◌++◌, Option, none, some, find, filter, map,
  get_elem?, length, if◌then◌else◌, Text, codes, ◌===◌, is_nonempty, trim, delete, find_index,
  find_last_index, modify_at, remove_at,
}
use new_a.Number.{Arithmetic}
use new_a.EditorLines.{
  Source, gsn, user_position, other, same_source, Node, Line, Position, OpenEstimate, Editor,
  Direction, target_index, move_between,
}
use new_a.EditorLines.Buffer.{quantity_or_one, number_or_zero}

module _ (a : Arithmetic) where
  open a use {Num, times, zero_num}

  -- A reference to an open estimate is its index.
  unfoldable pub estimate_index : Text → Editor a → Option ℕ
  unfolding find_index
  estimate_index id s = find_index (λ e. e.id === id) s.open_estimates

  abbrev pub only_open : List (OpenEstimate a) → Option ℕ
  only_open (e ∷ []) = some 0
  only_open _ = none

  abbrev or_index : Option ℕ → Option ℕ → Option ℕ
  or_index (some i) j = some i
  or_index none j = j

  unfoldable pub add_line_target_index : Editor a → Option ℕ
  unfolding estimate_index
  add_line_target_index s =
      if is_nonempty s.add_line_target
      then or_index (estimate_index s.add_line_target s) (only_open s.open_estimates)
      else only_open s.open_estimates

  abbrev pub set_items : List (Line a) → OpenEstimate a → OpenEstimate a
  set_items items e = record e { items = items }

  -- `delete state.estimateTextDrafts[id]`.
  unfoldable pub invalidate_text_draft : Text → Editor a → Editor a
  invalidate_text_draft id s = record s {
    text_drafts = filter (λ d. not (d.0 === id)) s.text_drafts;
  }

  -- `expanded.delete(line)`, stored for the estimate.
  unfoldable pub collapse_line : Text → Text → Editor a → Editor a
  unfolding delete
  collapse_line id line s = record s {
    expanded = map (λ d. if d.0 === id then (d.0, delete line d.1) else d) s.expanded;
  }

  -- The items of the estimate at an index, with its draft dropped.
  unfoldable pub put_items : ℕ → Text → List (Line a) → Editor a → Editor a
  unfolding modify_at invalidate_text_draft
  put_items i id items s =
      invalidate_text_draft id
        (record s { open_estimates = modify_at i (set_items items) s.open_estimates })

  abbrev pub line_matches : Source → Text → Line a → Bool
  line_matches source id line = same_source line.source source && line.source_id === id

  -- `existing?.id || fresh`.
  abbrev line_id : Option (Line a) → Text → Text
  line_id none fresh = fresh
  line_id (some line) fresh = if is_nonempty line.id then line.id else fresh

  -- `fresh` is the identifier made from the time.
  unfoldable pub line_from_user_position : Position a → Num → Option (Line a) → Text → Line a
  unfolding quantity_or_one number_or_zero
  line_from_user_position position quantity existing fresh = record {
    id = line_id existing fresh;
    kind = codes "position";
    code = position.code;
    name = position.name;
    unit = position.unit;
    quantity = quantity_or_one a quantity;
    unit_price = number_or_zero a position.cost;
    total = times (quantity_or_one a quantity) (number_or_zero a position.cost);
    source = user_position;
    source_id = position.id;
  }

  -- The items after the line of the position is replaced in its place, or pushed.
  unfoldable pub upsert_position : Position a → Num → Text → List (Line a) → List (Line a)
  unfolding find_index modify_at line_from_user_position
  upsert_position position quantity fresh items =
      elim (find_index (line_matches user_position position.id) items) [
        | some i ↦
            modify_at i (λ line. line_from_user_position position quantity (some line) fresh) items
        | none ↦ items ++ line_from_user_position position quantity none fresh ∷ []
      ]

  -- The items without the last one that passes the test; `none` where the code returns early.
  unfoldable pub without_last : (Line a → Bool) → List (Line a) → Option (List (Line a))
  unfolding find_last_index remove_at
  without_last p items = elim (find_last_index p items) [
    | none ↦ none
    | some j ↦ some (remove_at j items)
  ]

  unfoldable pub without_first : (Line a → Bool) → List (Line a) → Option (List (Line a))
  unfolding find_index remove_at
  without_first p items = elim (find_index p items) [
    | none ↦ none
    | some j ↦ some (remove_at j items)
  ]

  unfoldable pub moved : (Line a → Bool) → Direction → List (Line a) → Option (List (Line a))
  unfolding find_index target_index move_between
  moved p direction items = elim (find_index p items) [
    | none ↦ none
    | some index ↦ elim (target_index direction index (length items)) [
      | none ↦ none
      | some target ↦ some (move_between index target items)
    ]
  ]

  -- Change the items of the estimate at an index, unless the change returns early.
  unfoldable pub change_items :
      Option ℕ → (List (Line a) → Option (List (Line a))) → Editor a → Editor a
  unfolding put_items
  change_items none f s = s
  change_items (some i) f s = elim (get_elem? s.open_estimates i) [
    | none ↦ s
    | some e ↦ elim (f e.items) [ none ↦ s | some items ↦ put_items i e.id items s ]
  ]

  unfoldable pub upsert_user_position_in_estimate : Text → Num → Text → Editor a → Editor a
  unfolding add_line_target_index upsert_position change_items
  upsert_user_position_in_estimate position_id quantity fresh s =
      elim (find (λ p. p.id === position_id) s.user_positions) [
        | none ↦ s
        | some position ↦
            change_items (add_line_target_index s)
              (λ items. some (upsert_position position quantity fresh items)) s
      ]

  unfoldable pub remove_user_position_from_estimate : Text → Editor a → Editor a
  unfolding add_line_target_index without_last change_items
  remove_user_position_from_estimate position_id s =
      change_items (add_line_target_index s) (without_last (line_matches user_position position_id))
        s

  -- Here the text draft of the estimate stays.
  unfoldable pub remove_gsn_from_estimate : Text → Editor a → Editor a
  unfolding add_line_target_index find_last_index remove_at modify_at collapse_line
  remove_gsn_from_estimate node_code s = elim (add_line_target_index s) [
    | none ↦ s
    | some i ↦ elim (get_elem? s.open_estimates i) [
      | none ↦ s
      | some e ↦ elim (find_last_index (line_matches gsn node_code) e.items) [
        | none ↦ s
        | some j ↦ elim (get_elem? e.items j) [
          | none ↦ s
          | some line ↦ collapse_line e.id line.id (record s {
            open_estimates = modify_at i (set_items (remove_at j e.items)) s.open_estimates;
          })
        ]
      ]
    ]
  ]

  abbrev pub line_has_id : Text → Line a → Bool
  line_has_id id line = line.id === id

  -- `confirmed` is the user's answer. Where no line has the identifier, no line is collapsed.
  unfoldable pub delete_estimate_line : Bool → Text → Text → Editor a → Editor a
  unfolding estimate_index without_first change_items collapse_line find_index
  delete_estimate_line confirmed id line s = elim (estimate_index id s) [
    | none ↦ s
    | some i ↦ elim (get_elem? s.open_estimates i) [
      | none ↦ s
      | some e ↦ elim (find_index (line_has_id line) e.items) [
        | none ↦ s
        | some j ↦
            if confirmed
            then collapse_line id line (change_items (some i) (without_first (line_has_id line)) s)
            else s
      ]
    ]
  ]

  unfoldable pub move_estimate_line : Text → Text → Direction → Editor a → Editor a
  unfolding estimate_index moved change_items
  move_estimate_line id line direction s =
      change_items (estimate_index id s) (moved (line_has_id line) direction) s

  unfoldable pub new_line : Text → Text → Text → Line a
  new_line kind name fresh = record {
    id = fresh;
    kind = kind;
    code = [];
    name = name;
    unit = if kind === codes "position" then codes "шт" else [];
    quantity = zero_num;
    unit_price = zero_num;
    total = zero_num;
    source = other;
    source_id = [];
  }

  unfoldable pub add_estimate_line : Text → Text → Text → Text → Editor a → Editor a
  unfolding estimate_index new_line change_items trim
  add_estimate_line id kind name fresh s =
      if is_nonempty (trim name)
      then change_items (estimate_index id s)
          (λ items. some (items ++ new_line kind (trim name) fresh ∷ [])) s
      else s
