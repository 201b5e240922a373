-- ===== src/TreeEditing/Prune.antt =====
-- Closing the estimates that the tree does not hold any more: `pruneOpenEstimates` (web/app.js).
pub mod Dropped
pub mod Reference
use new_a.Common.{
  ℕ, zero, suc, Bool, true, false, List, map, Option, none, some, length, get_elem?, remove_at,
  if◌then◌else◌, Text, ◌===◌, has,
}
use new_a.ProjectTree.{estimate_key}
use new_a.EditorTabs.{buffer_tab}
use new_a.EstimateLocks.{OpenEstimate, Client, drop_lock}
use new_a.TreeEditing.{Workspace, set_client, invalidate_estimate_text_draft}

abbrev pub close_pruned : ℕ → Text → Client → Client
close_pruned index id c = record c {
  open_estimates = remove_at index c.open_estimates;
  estimate_locks = drop_lock id c.estimate_locks;
  editor_tab = if c.editor_tab === id then buffer_tab else c.editor_tab;
  gsn_loaded = false;
}

-- One round of the loop, at `index`.
abbrev pub prune_at : List Text → ℕ → Option OpenEstimate → Workspace → Workspace
prune_at valid_ids index none w = w
prune_at valid_ids index (some e) w =
    if has valid_ids e.id
    then w
    else invalidate_estimate_text_draft e.id (set_client (close_pruned index e.id w.client) w)

-- The loop over the indices below the bound, from the last one to the first.
unfoldable pub prune_below : ℕ → List Text → Workspace → Workspace
unfolding has remove_at drop_lock invalidate_estimate_text_draft ◌===◌
prune_below zero valid_ids w = w
prune_below (suc index) valid_ids w =
    prune_below index valid_ids
      (prune_at valid_ids index (get_elem? w.client.open_estimates index) w)

unfoldable pub prune_open_estimates : Workspace → Workspace
unfolding prune_below
prune_open_estimates w =
    prune_below (length w.client.open_estimates) (map estimate_key w.tree.estimates) w
