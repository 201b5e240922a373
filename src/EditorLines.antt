-- ===== src/EditorLines.antt =====
-- The buffer and the lines of the open estimates of web/app.js, and the operations that add, replace,
-- move and remove them. The fields of a line that none of these reads are left out, as are the
-- messages, the rendering and the storage that follow a change.
pub mod Buffer
pub mod Lines
pub mod Keys
pub mod Controls
mod Tests
use new_a.Common.{
  ℕ, zero, suc, ◌+◌, Bool, true, false, ◌&&◌, List, [], ◌∷◌, ◌++◌, Option, none, some, length,
  get_elem?, find, filter, not, ltb, if◌then◌else◌, Text, codes, ◌===◌, is_nonempty, trim,
  find_index, find_last_index, modify_at, remove_at, insert_at, upsert, remove_last, delete,
}
use new_a.Number.{Arithmetic}

-- The strings of `source`, where `other` is a missing one or any further string.
pub data Source : Type 0 where
  gsn user_position other : Source

abbrev pub same_source : Source → Source → Bool
same_source gsn gsn = true
same_source user_position user_position = true
same_source other other = true
same_source _ _ = false

-- A node of the standards' hierarchy.
pub record Node : Type 0 where
  pub code : Text
  pub original_code : Text
  pub name : Text
  pub unit : Text

-- `moveEstimateLine` is called with -1 and 1.
pub data Direction : Type 0 where
  up down : Direction

-- `index + direction`, if it is an index of the array.
unfoldable pub target_index : Direction → ℕ → ℕ → Option ℕ
target_index up zero len = none
target_index up (suc i) len = some i
target_index down i len = if ltb (suc i) len then some (suc i) else none

module _ {A : Type 0} where
  -- `const [line] = items.splice(index, 1); items.splice(targetIndex, 0, line)`.
  unfoldable pub move_between : ℕ → ℕ → List A → List A
  unfolding remove_at insert_at
  move_between index target items = elim (get_elem? items index) [
    | some line ↦ insert_at target line (remove_at index items)
    | none ↦ items
  ]

module _ (a : Arithmetic) where
  open a use {Num, times, is_falsy, zero_num, one_num}

  pub record BufferItem : Type 0 where
    pub code : Text
    pub original_code : Text
    pub name : Text
    pub unit : Text
    pub quantity : Num
    -- items of the standards have none
    pub unit_price : Option Num
    pub source : Source
    pub source_id : Text

  pub record Line : Type 0 where
    pub id : Text
    pub kind : Text
    pub code : Text
    pub name : Text
    pub unit : Text
    pub quantity : Num
    pub unit_price : Num
    pub total : Num
    pub source : Source
    pub source_id : Text

  -- A position of the user's own catalogue.
  pub record Position : Type 0 where
    pub id : Text
    pub code : Text
    pub name : Text
    pub unit : Text
    pub cost : Num

  -- A missing array of items is the empty one.
  pub record OpenEstimate : Type 0 where
    pub id : Text
    pub items : List Line

  -- The text drafts and the expanded lines, by the estimate.
  pub record Editor : Type 0 where
    pub buffer : List BufferItem
    pub user_positions : List Position
    pub open_estimates : List OpenEstimate
    pub add_line_target : Text
    pub text_drafts : List (Text × Text)
    pub expanded : List (Text × List Text)
