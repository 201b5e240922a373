-- ===== src/EditorLines/Buffer.antt =====
-- The operations on the buffer: `upsertGSNInBuffer`, `removeGSNFromBuffer`,
-- `upsertUserPositionInBuffer` and `removeUserPositionFromBuffer` (web/app.js).
pub mod Refinement
use new_a.Common.{
  ℕ, Bool, true, false, ◌&&◌, List, [], ◌∷◌, Option, none, some, find, if◌then◌else◌, Text, ◌===◌,
  upsert, remove_last,
}
use new_a.Number.{Arithmetic}
use new_a.EditorLines.{Source, gsn, user_position, same_source, Node, BufferItem, Position, Editor}

module _ (a : Arithmetic) where
  open a use {Num, is_falsy, zero_num, one_num}

  -- `Number(quantity || 1)`.
  unfoldable pub quantity_or_one : Num → Num
  quantity_or_one q = if is_falsy q then one_num else q

  -- `Number(cost || 0)`.
  unfoldable pub number_or_zero : Num → Num
  number_or_zero q = if is_falsy q then zero_num else q

  unfoldable pub item_from_gsn_node : Node → Num → BufferItem a
  unfolding quantity_or_one
  item_from_gsn_node node quantity = record {
    code = node.code;
    original_code = node.original_code;
    name = node.name;
    unit = node.unit;
    quantity = quantity_or_one quantity;
    unit_price = none;
    source = gsn;
    source_id = node.code;
  }

  unfoldable pub item_from_user_position : Position a → Num → BufferItem a
  unfolding quantity_or_one number_or_zero
  item_from_user_position position quantity = record {
    code = position.code;
    original_code = [];
    name = position.name;
    unit = position.unit;
    quantity = quantity_or_one quantity;
    unit_price = some (number_or_zero position.cost);
    source = user_position;
    source_id = position.id;
  }

  -- `item.source === source && item.sourceId === id`.
  abbrev pub item_matches : Source → Text → BufferItem a → Bool
  item_matches source id item = same_source item.source source && item.source_id === id

  unfoldable pub upsert_gsn_in_buffer : Node → Num → Editor a → Editor a
  unfolding upsert item_from_gsn_node
  upsert_gsn_in_buffer node quantity s = record s {
    buffer = upsert (item_matches gsn node.code) (item_from_gsn_node node quantity) s.buffer;
  }

  unfoldable pub remove_gsn_from_buffer : Text → Editor a → Editor a
  unfolding remove_last
  remove_gsn_from_buffer node_code s = record s {
    buffer = remove_last (item_matches gsn node_code) s.buffer;
  }

  unfoldable pub upsert_user_position_in_buffer : Text → Num → Editor a → Editor a
  unfolding upsert item_from_user_position
  upsert_user_position_in_buffer position_id quantity s =
      elim (find (λ p. p.id === position_id) s.user_positions) [
        | none ↦ s
        | some position ↦ record s {
          buffer =
              upsert (item_matches user_position position_id)
                (item_from_user_position position quantity) s.buffer;
        }
      ]

  unfoldable pub remove_user_position_from_buffer : Text → Editor a → Editor a
  unfolding remove_last
  remove_user_position_from_buffer position_id s = record s {
    buffer = remove_last (item_matches user_position position_id) s.buffer;
  }
