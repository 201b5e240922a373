-- ===== src/EditorLines/Controls.antt =====
-- The controls that set the quantity of a position: `parseQuantityInput`, `handleAddPrimitiveClick`,
-- `handleAddPrimitiveQuantityBlur`, `handleAddPrimitiveQuantityKeydown` and
-- `onAddPrimitiveQuantityChange` (web/app.js). A handler returns the operation on the buffer or the
-- estimate that it calls.
pub mod Linked
mod Tests
use Prim.Native.String.{String}
use new_a.Common.{
  ℕ, Bool, true, false, not, ◌&&◌, ◌||◌, List, [], ◌∷◌, Option, none, some, if◌then◌else◌, ◌==◌,
  Text, codes, ◌===◌, is_nonempty, drop_prefix, starts_with, trim, strip,
}
use new_a.Number.{Arithmetic}
use new_a.Licenses.{includes}
use new_a.EditorLines.{Node}
use new_a.EditorLines.Buffer.Refinement.{
  Change, upsert_gsn, remove_gsn, upsert_position, remove_position,
}
use new_a.EditorLines.Keys.{parse_user_position_estimate_key}

-- A control: its key, and the click or the end of typing. `typed` is the text in the input, where the
-- control has one.
pub data Gesture : Type 0 where
  activate : Gesture
  minus plus commit : (typed : Option Text) → Gesture

-- `text.replace(",", ".")`.
abbrev comma_to_dot : Text → Text
comma_to_dot [] = []
comma_to_dot (c ∷ cs) = if c == b',' then b'.' ∷ cs else c ∷ comma_to_dot cs

-- `is_positive` is `value > 0`, and `at_most_one` is `value <= 1`.
module _ (a : Arithmetic) (is_positive at_most_one : a.Num → Bool) where
  open a use {Num, of_text, add, sub, is_finite, one_num}

  -- The operations that a change of a quantity calls: one on the buffer, or one on the estimate that
  -- lines are added to.
  pub data Call : Type 0 where
    on_buffer : Change a → Call
    estimate_upsert_gsn : Node → Num → Call
    estimate_remove_gsn : Text → Call
    estimate_upsert_position : Text → Num → Call
    estimate_remove_position : Text → Call

  pub record Controls : Type 0 where
    -- `state.addPrimitiveQuantities`
    pub quantities : Text → Option Num
    -- the nodes of `state.addPrimitiveSources`
    pub sources : Text → Option Node

  abbrev checked_number : Num → Option Num
  checked_number n = if not (is_finite n) || not (is_positive n) then none else some n

  abbrev parse_nonempty : Text → Option Num
  parse_nonempty [] = none
  parse_nonempty (c ∷ cs) = checked_number (of_text (c ∷ cs))

  unfoldable pub parse_quantity_input : Text → Option Num
  unfolding trim strip
  parse_quantity_input value = parse_nonempty (comma_to_dot (strip (trim value)))

  unfoldable pub register_add_primitive_source : Text → Node → Controls → Controls
  unfolding ◌===◌
  register_add_primitive_source key node s = record s {
    sources = λ x. if key === x then some node else s.sources x;
  }

  abbrev pub gsn_call :
      (deactivated : Option Num → Node → Call) → Option Node → Option Num → Option Call
  gsn_call call none quantity = none
  gsn_call call (some node) quantity = some (call quantity node)

  -- `none` is `options.deactivated`.
  abbrev pub buffer_gsn : Option Num → Node → Call
  buffer_gsn none node = on_buffer (remove_gsn node.code)
  buffer_gsn (some q) node = on_buffer (upsert_gsn node q)

  abbrev pub estimate_gsn : Option Num → Node → Call
  estimate_gsn none node = estimate_remove_gsn node.code
  estimate_gsn (some q) node = estimate_upsert_gsn node q

  abbrev pub buffer_position : Option Num → Text → Call
  buffer_position none id = on_buffer (remove_position id)
  buffer_position (some q) id = on_buffer (upsert_position id q)

  abbrev pub estimate_position : Option Num → Option (Text × Text) → Option Call
  estimate_position quantity none = none
  estimate_position none (some (estimate_id, id)) = some (estimate_remove_position id)
  estimate_position (some q) (some (estimate_id, id)) = some (estimate_upsert_position id q)

  abbrev pub position_call : Option Num → Option Text → Text → Option Call
  position_call quantity (some id) key = some (buffer_position quantity id)
  position_call quantity none key =
      estimate_position quantity (parse_user_position_estimate_key key)

  unfoldable pub on_add_primitive_quantity_change : Text → Option Num → Controls → Option Call
  unfolding starts_with includes drop_prefix parse_user_position_estimate_key
  on_add_primitive_quantity_change key quantity s =
      if starts_with (codes "buffer:gsn:") key
      then gsn_call buffer_gsn (s.sources key) quantity
      else (if includes (codes ":gsn:") key
          then gsn_call estimate_gsn (s.sources key) quantity
          else position_call quantity (drop_prefix (codes "buffer:user-position:") key) key)

  unfoldable pub set_quantity : Text → Option Num → Controls → Controls
  unfolding ◌===◌
  set_quantity key quantity s = record s {
    quantities = λ x. if key === x then quantity else s.quantities x;
  }

  abbrev or_one : Option Num → Num
  or_one none = one_num
  or_one (some q) = q

  abbrev parsed_or : Option Num → Num → Num
  parsed_or none q = q
  parsed_or (some p) q = p

  abbrev parse_typed : Option Text → Option Num
  parse_typed none = none
  parse_typed (some text) = parse_quantity_input text

  -- `getAddPrimitiveCurrentQuantity`.
  unfoldable pub current_quantity : Text → Option Text → Controls → Num
  unfolding parse_quantity_input
  current_quantity key typed s = parsed_or (parse_typed typed) (or_one (s.quantities key))

  abbrev if_typed : Option Text → Num → Option (Option Num)
  if_typed none q = none
  if_typed (some text) q = some (some q)

  -- The new quantity of the control, where the gesture sets one: `some none` collapses the control.
  unfoldable pub new_quantity : Text → Gesture → Controls → Option (Option Num)
  unfolding current_quantity
  new_quantity key activate s = some (some one_num)
  new_quantity key (minus typed) s =
      let current = current_quantity key typed s in
      if at_most_one current then some none else some (some (sub current one_num))
  new_quantity key (plus typed) s = some (some (add (current_quantity key typed s) one_num))
  new_quantity key (commit typed) s = if_typed typed (current_quantity key typed s)

  abbrev pub change_to : Text → Option (Option Num) → Controls → Controls × Option Call
  change_to key none s = (s, none)
  change_to key (some quantity) s = (
    set_quantity key quantity s,
    on_add_primitive_quantity_change key quantity (set_quantity key quantity s),
  )

  unfoldable pub handle_gesture : Text → Gesture → Controls → Controls × Option Call
  unfolding new_quantity set_quantity on_add_primitive_quantity_change
  handle_gesture key gesture s = change_to key (new_quantity key gesture s) s
