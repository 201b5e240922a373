-- ===== src/UserPositions.antt =====
-- The user's own positions: loading, changing and deleting them (`loadUserPositions`,
-- `saveUserPositionDialog`, `deleteUserPosition`, `deleteAllUserPositions` in web/app.js).
pub mod Import
pub mod Load
mod Tests
use Prim.Native.String.{String}
use new_a.Common.{
  ℕ, zero, suc, Bool, true, false, not, ◌&&◌, ◌||◌, List, [], ◌∷◌, ◌++◌, map, Option, none, some,
  length, if◌then◌else◌, ◌==◌, Text, codes, ◌===◌, is_nonempty, trim, find_index, modify_at,
  remove_at, has, add,
}
use new_a.Number.{Arithmetic}

pub record UserPosition (N : Type 0) : Type 0 where
  pub id : Text
  pub code : Text
  pub name : Text
  pub unit : Text
  pub cost : N

abbrev pub position_key : {N : Type 0} → UserPosition N → Text
position_key p = p.id

-- `stored` is what the storage and the server were told last, and `made` counts the identifiers made.
pub record Catalog (N : Type 0) : Type 0 where
  pub items : List (UserPosition N)
  pub edit_id : Text
  pub stored : List (UserPosition N)
  pub made : ℕ
  pub message : Text

-- How the request for the positions ends: it fails, its answer has no array `items`, or it has one.
pub data Payload (N : Type 0) : Type 0 where
  request_failed : Payload N
  no_items : Payload N
  with_items : List (UserPosition N) → Payload N

module _ {N : Type 0} where
  unfoldable pub save_user_positions : Catalog N → Catalog N
  save_user_positions s = record s { stored = s.items }

  -- The items with an identifier that was not seen before; `none` is an entry that is no object.
  unfoldable pub keep_first : List (Option (UserPosition N)) → List Text → List (UserPosition N)
  unfolding has
  keep_first [] seen = []
  keep_first (none ∷ items) seen = keep_first items seen
  keep_first (some p ∷ items) seen =
      let rest = keep_first items seen in
      let rest_seen = keep_first items (p.id ∷ seen) in
      if not (is_nonempty p.id) || has seen p.id then rest else p ∷ rest_seen

  unfoldable pub apply_local : List (Option (UserPosition N)) → Catalog N → Catalog N
  unfolding keep_first save_user_positions
  apply_local local_items s =
      let kept = keep_first local_items [] in
      let loaded = record s { items = kept } in
      if length kept == length local_items then loaded else save_user_positions loaded

  abbrev pub save_nonempty : List (UserPosition N) → Catalog N → Catalog N
  save_nonempty [] s = s
  save_nonempty (p ∷ ps) s = save_user_positions s

  unfoldable pub load_user_positions :
      Payload N → List (Option (UserPosition N)) → Catalog N → Catalog N
  unfolding apply_local save_user_positions
  load_user_positions request_failed local_items s = apply_local local_items s
  load_user_positions no_items local_items s = apply_local local_items s
  load_user_positions (with_items []) local_items s =
      let applied = apply_local local_items s in save_nonempty applied.items applied
  load_user_positions (with_items (p ∷ ps)) local_items s = record s {
    items = p ∷ ps;
    stored = p ∷ ps;
  }

  abbrev tell : Text → Catalog N → Catalog N
  tell message s = record s { message = message }

  abbrev delete_found : Option ℕ → Text → Catalog N → Catalog N
  delete_found none id s = tell (codes "Позиция не найдена") s
  delete_found (some index) id s = tell (codes "Позиция удалена") (
      save_user_positions (record s {
        items = remove_at index s.items;
        edit_id = if s.edit_id === id then [] else s.edit_id;
      }))

  unfoldable pub delete_user_position : Text → Catalog N → Catalog N
  unfolding find_index remove_at save_user_positions ◌===◌
  delete_user_position id s = delete_found (find_index (λ p. p.id === id) s.items) id s

  unfoldable pub delete_all_user_positions : (confirmed : Bool) → Catalog N → Catalog N
  unfolding save_user_positions
  delete_all_user_positions confirmed s = elim s.items [
    | [] ↦ tell (codes "Позиции пользователя отсутствуют") s
    | p ∷ ps ↦
        if confirmed
        then tell (codes "Все позиции пользователя удалены")
            (save_user_positions (record s { items = []; edit_id = [] }))
        else s
  ]

-- The fields of the dialog, as text.
pub record PositionData : Type 0 where
  pub code : Text
  pub name : Text
  pub unit : Text
  pub cost : Text

-- `is_negative` is `value < 0`, and `new_id n` the identifier that is made as the one numbered `n`.
module _ (a : Arithmetic) (is_negative : a.Num → Bool) (new_id : ℕ → Text) where
  abbrev cost_of : Text → a.Num
  cost_of text = if is_nonempty text then a.of_text text else a.zero_num

  abbrev change_position :
      Option ℕ → Text → Text → Text → a.Num → Catalog a.Num → Bool × Catalog a.Num
  change_position none code name unit cost s = (false, tell (codes "Позиция не найдена") s)
  change_position (some index) code name unit cost s = (
    true,
    tell (codes "Позиция сохранена") (
        save_user_positions (record s {
          items =
              modify_at index (λ p. record p { code = code; name = name; unit = unit; cost = cost })
                s.items;
        })),
  )

  abbrev add_position : Text → Text → Text → a.Num → Catalog a.Num → Bool × Catalog a.Num
  add_position code name unit cost s = (
    true,
    tell (codes "Позиция добавлена") (
        save_user_positions (record s {
          items =
              s.items
              ++ record { id = new_id s.made; code = code; name = name; unit = unit; cost = cost }
                ∷ [];
          made = suc s.made;
        })),
  )

  abbrev save_checked : Text → Text → Text → a.Num → Catalog a.Num → Bool × Catalog a.Num
  save_checked code name unit cost s =
      if not (is_nonempty code) || not (is_nonempty name)
      then (false, tell (codes "Укажите шифр и наименование") s)
      else (if not (a.is_finite cost) || is_negative cost
          then (false, tell (codes "Укажите корректную стоимость") s)
          else (if is_nonempty s.edit_id
              then change_position (find_index (λ p. p.id === s.edit_id) s.items) code name unit
                  cost s
              else add_position code name unit cost s))

  unfoldable pub save_user_position_dialog : PositionData → Catalog a.Num → Bool × Catalog a.Num
  unfolding trim find_index modify_at save_user_positions ◌===◌
  save_user_position_dialog d s =
      save_checked (trim d.code) (trim d.name) (trim d.unit) (cost_of d.cost) s
