-- ===== src/EditorTabs.antt =====
-- The tabs of the open estimates: `closeEstimateFromEditor` (web/app.js). The function awaits the
-- saving of the estimate between the search for its index and the removal at this index, and other
-- handlers run meanwhile, so the two halves are steps of their own.
pub mod Closing
pub mod Neighbour
pub mod Overlap
mod Tests
use Prim.Native.String.{String}
use new_a.Common.{
  ℕ, zero, suc, ◌-◌, Bool, true, false, List, [], ◌∷◌, Option, none, some, length, get_elem?, ltb,
  if◌then◌else◌, Text, codes, ◌===◌, find_index, remove_at,
}

abbrev pub buffer_tab : Text
buffer_tab = codes "buffer"

-- The identifiers in `state.openEstimates`, and `state.editorTab`.
pub record Tabs : Type 0 where
  pub open_ids : List Text
  pub editor_tab : Text

-- `Math.min(a, b)`.
abbrev pub smaller : ℕ → ℕ → ℕ
smaller a b = if ltb a b then a else b

-- The estimate that follows the closed one, or else the last one, or else the buffer; `none` is an index
-- out of range, whose `.id` throws.
unfoldable pub next_tab : ℕ → List Text → Option Text
next_tab index left =
    if ltb 0 (length left)
    then get_elem? left (smaller index (length left - 1))
    else some buffer_tab

-- The tab after the assignment, which an exception skips.
abbrev pub or_kept : Option Text → Text → Text
or_kept none tab = tab
or_kept (some next) tab = next

-- The first half, up to the first `await`: `none` is the early return.
unfoldable pub start_close : Text → Tabs → Option ℕ
unfolding find_index ◌===◌
start_close id s = find_index (λ x. x === id) s.open_ids

-- The second half, with the index found in the first one.
unfoldable pub finish_close : ℕ → Text → Tabs → Tabs
unfolding remove_at next_tab ◌===◌
finish_close index id s = record {
  open_ids = remove_at index s.open_ids;
  editor_tab =
      if s.editor_tab === id
      then or_kept (next_tab index (remove_at index s.open_ids)) s.editor_tab
      else s.editor_tab;
}

-- `synced` says that the draft was parsed and the estimate saved.
unfoldable pub finish_if : Bool → Text → Option ℕ → Tabs → Tabs
unfolding finish_close
finish_if synced id none s = s
finish_if false id (some index) s = s
finish_if true id (some index) s = finish_close index id s

-- Both halves where no other handler runs between.
unfoldable pub close_estimate : Bool → Text → Tabs → Tabs
unfolding start_close finish_if
close_estimate synced id s = finish_if synced id (start_close id s) s
