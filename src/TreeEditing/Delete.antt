-- ===== src/TreeEditing/Delete.antt =====
-- Deleting from the tree and from the editor: `deleteConstructionEntity` and
-- `deleteEstimateFromEditor` (web/app.js).
pub mod Removal
pub mod Requests
use Prim.Native.String.{String}
use new_a.Common.{
  Bool, true, false, not, ◌&&◌, ◌||◌, List, [], ◌∷◌, ◌++◌, map, Option, none, some, if◌then◌else◌,
  Text, codes, is_nonempty, has,
}
use new_a.ProjectTree.{Kind, all, construction, object, estimate, other}
use new_a.EstimateLocks.{Lock, open_key, get_estimate_lock_info, is_estimate_locked_by_other}
use new_a.TreeEditing.{
  ApiRequest, delete_at, Workspace, Ends, Step, finds_construction_entity,
  cleanup_construction_tree_state, show, send, refresh_construction_data,
  remove_estimate_permanently,
}
use new_a.TreeEditing.Prune.{prune_open_estimates}

abbrev pub is_estimate : Kind → Bool
is_estimate estimate = true
is_estimate _ = false

abbrev lock_message : Option Lock → Text
lock_message none = codes "Смета редактируется другим пользователем"
lock_message (some lock) =
    codes "Смета редактируется "
    ++ (if is_nonempty lock.user_name then lock.user_name else codes "другим пользователем")

-- The `catch` of the callers.
abbrev pub shown_end : Text → Step → Workspace
shown_end done (w, none) = show done w
shown_end done (w, some problem) = show problem w

abbrev pub pruned_end : Step → Workspace
pruned_end (w, none) = show (codes "Удалено") (prune_open_estimates w)
pruned_end (w, some problem) = show problem w

abbrev pub after_node : Option Text → Ends → Kind → Text → Workspace → Workspace
after_node (some problem) ends kind id w = show problem w
after_node none ends kind id w =
    pruned_end (refresh_construction_data ends (cleanup_construction_tree_state kind id w))

abbrev pub delete_confirmed : Ends → Kind → Text → Workspace → Workspace
delete_confirmed ends estimate id w =
    shown_end (codes "Смета удалена") (remove_estimate_permanently ends id w)
delete_confirmed ends construction id w =
    after_node ends.deleted ends construction id
      (send (delete_at (codes "/api/constructions/" ++ id)) w)
delete_confirmed ends object id w =
    after_node ends.deleted ends object id (send (delete_at (codes "/api/objects/" ++ id)) w)
delete_confirmed ends _ id w = show (codes "Неизвестный тип узла") w

unfoldable pub delete_construction_entity : Ends → Kind → Text → Workspace → Workspace
unfolding finds_construction_entity is_estimate_locked_by_other get_estimate_lock_info
    cleanup_construction_tree_state refresh_construction_data remove_estimate_permanently
    prune_open_estimates
delete_construction_entity ends kind id w =
    if not (finds_construction_entity w.tree kind id)
    then show (codes "Элемент не найден") w
    else (if is_estimate kind && is_estimate_locked_by_other w.client id
        then show (lock_message (get_estimate_lock_info w.client id)) w
        else (if not ends.confirmed then w else delete_confirmed ends kind id w))

abbrev show_nonempty : Text → Workspace → Workspace
show_nonempty problem w = if is_nonempty problem then show problem w else w

abbrev pub editor_end : Step → Workspace
editor_end (w, none) = show (codes "Смета удалена") w
editor_end (w, some problem) = show_nonempty problem w

unfoldable pub delete_estimate_from_editor : Ends → Text → Workspace → Workspace
unfolding has finds_construction_entity remove_estimate_permanently
delete_estimate_from_editor ends id w =
    if not (
      has (map open_key w.client.open_estimates) id || finds_construction_entity w.tree estimate id)
    then show (codes "Смета не найдена") w
    else (if not ends.confirmed then w else editor_end (remove_estimate_permanently ends id w))
