-- ===== src/EditorLines/Controls/Linked.antt =====
-- A control of the buffer and the item that it stands for (`handleAddPrimitiveClick` and
-- `onAddPrimitiveQuantityChange` of web/app.js).
use new_a.Common.{
  Bool, false, [], List, Option, none, some, find, if◌then◌else◌, Text, codes, ◌===◌, ===_refl,
  drop_prefix, starts_with, ◌≡◌, refl, ap, ◌∙◌,
}
use new_a.Number.{Arithmetic}
use new_a.Licenses.{includes}
use new_a.EditorLines.{user_position, Position, BufferItem, Editor}
use new_a.EditorLines.Buffer.{item_from_user_position}
use new_a.EditorLines.Buffer.Refinement.{
  Change, upsert_position, remove_position, run, run_map, IsKeyed, items_by_key, set_key, ItemMap,
}
use new_a.EditorLines.Buffer.Refinement.Runs.{items_by_key-run, run_map_known}
use new_a.EditorLines.Keys.{user_position_buffer_key}
use new_a.EditorLines.Controls.{
  Gesture, on_buffer, Controls, on_add_primitive_quantity_change, set_quantity, new_quantity,
  change_to, handle_gesture, gsn_call, buffer_gsn, estimate_gsn, position_call,
}

not_of_gsn : (id : Text) → starts_with (codes "buffer:gsn:") (user_position_buffer_key id) ≡ false
unfolding starts_with user_position_buffer_key
not_of_gsn id = refl

position_of_key :
    (id : Text)
    → drop_prefix (codes "buffer:user-position:") (user_position_buffer_key id) ≡ some id
unfolding drop_prefix user_position_buffer_key
position_of_key id = refl

module _ (a : Arithmetic) (is_positive at_most_one : a.Num → Bool) where
  open a use {Num, is_falsy, one_num, zero_num}

  abbrev pub quantity_change : Option Num → Text → Change a
  quantity_change none id = remove_position id
  quantity_change (some q) id = upsert_position id q

  -- The item of the buffer for a quantity of the control. A quantity or a cost that is no number or 0
  -- counts as 1 and as 0.
  abbrev pub item_for : Position a → Option Num → Option (BufferItem a)
  item_for position none = none
  item_for position (some q) = some (record {
    code = position.code;
    original_code = [];
    name = position.name;
    unit = position.unit;
    quantity = if is_falsy q then one_num else q;
    unit_price = some (if is_falsy position.cost then zero_num else position.cost);
    source = user_position;
    source_id = position.id;
  })

  item_lem :
      (position : Position a) (q : Num)
      → some (item_from_user_position a position q) ≡ item_for position (some q)
  unfolding item_from_user_position
  item_lem position q = refl

  call_lem :
      (key : Text) (quantity : Option Num) (s : Controls a is_positive at_most_one)
      → on_add_primitive_quantity_change a is_positive at_most_one key quantity s ≡ (
          if starts_with (codes "buffer:gsn:") key
          then gsn_call a is_positive at_most_one
              (buffer_gsn a is_positive at_most_one)
              (s.sources key)
              quantity
          else (if includes (codes ":gsn:") key
              then gsn_call a is_positive at_most_one
                  (estimate_gsn a is_positive at_most_one)
                  (s.sources key)
                  quantity
              else position_call a is_positive at_most_one quantity
                  (drop_prefix (codes "buffer:user-position:") key)
                  key))
  unfolding on_add_primitive_quantity_change
  call_lem key quantity s = refl

  called_lem :
      (id : Text) (quantity : Option Num) (s : Controls a is_positive at_most_one)
      → includes (codes ":gsn:") (user_position_buffer_key id) ≡ false
      → on_add_primitive_quantity_change a is_positive at_most_one
          (user_position_buffer_key id)
          quantity
          s
        ≡ some (on_buffer (quantity_change quantity id))
  called_lem id none s h =
      rw (call_lem (user_position_buffer_key id) none s, not_of_gsn id, h, position_of_key id) refl
  called_lem id (some q) s h =
      rw (call_lem (user_position_buffer_key id) (some q) s, not_of_gsn id, h, position_of_key id)
        refl

  set_key_self :
      (id : Text) (item : Option (BufferItem a)) (m : ItemMap a)
      → set_key a user_position id item m user_position id ≡ item
  set_key_self id item m = rw (===_refl id) refl

  run_map_removed :
      (id : Text) (positions : List (Position a)) (m : ItemMap a)
      → run_map a positions (remove_position id) m ≡ set_key a user_position id none m
  unfolding run_map
  run_map_removed id positions m = refl

  found_after :
      (id : Text) (quantity : Option Num) (e : Editor a) (position : Position a)
      → IsKeyed a e.buffer
      → find (λ p. p.id === id) e.user_positions ≡ some position
      → items_by_key a (run a (quantity_change quantity id) e).buffer user_position id
        ≡ item_for position quantity
  found_after id none e position k known =
      ap (λ m. m user_position id) (items_by_key-run a (remove_position id) e k) ∙ removed id e
    where
      removed :
          (x : Text) (s : Editor a)
          → run_map a s.user_positions (remove_position x) (items_by_key a s.buffer) user_position x
            ≡ none
      removed x s =
          rw (run_map_removed x s.user_positions (items_by_key a s.buffer))
            (set_key_self x none (items_by_key a s.buffer))
  found_after id (some q) e position k known =
      ap (λ m. m user_position id)
        (items_by_key-run a (upsert_position id q) e k
          ∙ run_map_known a id q e.user_positions (items_by_key a e.buffer) position known)
      ∙ set_key_self id (some (item_from_user_position a position q)) (items_by_key a e.buffer)
      ∙ item_lem position q

  set_quantity_self :
      (key : Text) (quantity : Option Num) (s : Controls a is_positive at_most_one)
      → (set_quantity a is_positive at_most_one key quantity s).quantities key ≡ quantity
  unfolding set_quantity
  set_quantity_self key quantity s = rw (===_refl key) refl

  handle_lem :
      (key : Text) (g : Gesture) (s : Controls a is_positive at_most_one) (quantity : Option Num)
      → new_quantity a is_positive at_most_one key g s ≡ some quantity
      → handle_gesture a is_positive at_most_one key g s
        ≡ change_to a is_positive at_most_one key (some quantity) s
  unfolding handle_gesture
  handle_lem key g s quantity h = ap (λ o. change_to a is_positive at_most_one key o s) h

  -- A control of the buffer and its item agree: where the position is known, the buffer holds no item
  -- twice and the key does not hold `:gsn:`, a gesture that sets a quantity stores it for the key and
  -- calls one operation on the buffer, after which the item found for the position has its code, name,
  -- unit and cost and the quantity that the control has, or 1 where that is 0 or no number; where the
  -- control has collapsed, no item is found.
  pub handle_gesture-linked :
      (id : Text) (g : Gesture) (quantity : Option Num) (s : Controls a is_positive at_most_one)
      (e : Editor a) (position : Position a)
      → includes (codes ":gsn:") (user_position_buffer_key id) ≡ false
      → new_quantity a is_positive at_most_one (user_position_buffer_key id) g s ≡ some quantity
      → IsKeyed a e.buffer
      → find (λ p. p.id === id) e.user_positions ≡ some position
      → (((handle_gesture a is_positive at_most_one (user_position_buffer_key id) g s).0).quantities
            (user_position_buffer_key id)
          ≡ quantity)
        × ((handle_gesture a is_positive at_most_one (user_position_buffer_key id) g s).1
            ≡ some (on_buffer (quantity_change quantity id)))
        × (items_by_key a (run a (quantity_change quantity id) e).buffer user_position id
            ≡ item_for position quantity)
  handle_gesture-linked id g quantity s e position h sets k known =
      let key = user_position_buffer_key id in
      let handled = handle_lem key g s quantity sets in
      (
        ap (λ r. (r.0).quantities key) handled ∙ set_quantity_self key quantity s,
        ap (λ r. r.1) handled ∙ called_lem id quantity _ h,
        found_after id quantity e position k known,
      )
