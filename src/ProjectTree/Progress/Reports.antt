-- ===== src/ProjectTree/Progress/Reports.antt =====
-- The reports on running calculations, kept by node (web/app.js).
use new_a.Common.{
  false, [], ◌∷◌, Option, none, some, if◌then◌else◌, Text, ◌===◌, ===_iff, ===_refl, ◌≡◌, refl,
  arith,
}
use new_a.ProjectTree.{Kind}
use new_a.ProjectTree.Progress.{
  Progress, ProgressMap, scope_key, get_key, delete_key, get_tree_calc_progress,
  set_tree_calc_progress,
}

get_key-delete_key : (key : Text) (m : ProgressMap) → get_key (delete_key key m) key ≡ none
unfolding get_key delete_key
get_key-delete_key key [] = refl
get_key-delete_key key (entry ∷ m) = ground (arith, get_key-delete_key key m)

get_key-delete_key_other :
    (key key' : Text) (m : ProgressMap)
    → key === key' ≡ false
    → get_key (delete_key key m) key' ≡ get_key m key'
unfolding get_key delete_key
get_key-delete_key_other key key' [] h = refl
get_key-delete_key_other key key' (entry ∷ m) h = ground (
  arith,
  get_key-delete_key_other key key' m h,
  ===_iff (entry.0) key,
  ===_iff (entry.0) key',
  ===_iff key key',
  h,
)

get_key-cons :
    (key key' : Text) (p : Progress) (m : ProgressMap)
    → get_key ((key, p) ∷ m) key' ≡ (if key === key' then some p else get_key m key')
unfolding get_key
get_key-cons key key' p m = refl

get_tree_calc_progress_lem :
    (m : ProgressMap) (kind : Kind) (id : Text)
    → get_tree_calc_progress m kind id ≡ get_key m (scope_key kind id)
unfolding get_tree_calc_progress
get_tree_calc_progress_lem m kind id = refl

set_none :
    (kind : Kind) (id : Text) (m : ProgressMap)
    → set_tree_calc_progress kind id none m ≡ delete_key (scope_key kind id) m
unfolding set_tree_calc_progress
set_none kind id m = refl

set_some :
    (kind : Kind) (id : Text) (p : Progress) (m : ProgressMap)
    → set_tree_calc_progress kind id (some p) m
      ≡ (scope_key kind id, p) ∷ delete_key (scope_key kind id) m
unfolding set_tree_calc_progress
set_some kind id p m = refl

-- The report that was set last for a node is the one that is found, also where none was set, and
-- the reports of the nodes with other keys stay as they were.
pub get_tree_calc_progress-set_tree_calc_progress :
    (kind : Kind) (id : Text) (report : Option Progress) (m : ProgressMap)
    → (get_tree_calc_progress (set_tree_calc_progress kind id report m) kind id ≡ report)
      × ((kind' : Kind) (id' : Text)
          → scope_key kind id === scope_key kind' id' ≡ false
          → get_tree_calc_progress (set_tree_calc_progress kind id report m) kind' id'
            ≡ get_tree_calc_progress m kind' id')
get_tree_calc_progress-set_tree_calc_progress kind id none m =
    let key = scope_key kind id in
    (
      rw (set_none kind id m, get_tree_calc_progress_lem (delete_key key m) kind id)
          (get_key-delete_key key m),
      λ kind' id' h.
          rw
            (
              set_none kind id m,
              get_tree_calc_progress_lem (delete_key key m) kind' id',
              get_tree_calc_progress_lem m kind' id',
            )
            (get_key-delete_key_other key (scope_key kind' id') m h),
    )
get_tree_calc_progress-set_tree_calc_progress kind id (some p) m =
    let key = scope_key kind id in
    let rest = delete_key key m in
    (
      rw
          (
            set_some kind id p m,
            get_tree_calc_progress_lem ((key, p) ∷ rest) kind id,
            get_key-cons key key p rest,
            ===_refl key,
          )
          refl,
      λ kind' id' h.
          rw
            (
              set_some kind id p m,
              get_tree_calc_progress_lem ((key, p) ∷ rest) kind' id',
              get_tree_calc_progress_lem m kind' id',
              get_key-cons key (scope_key kind' id') p rest,
              h,
            )
            (get_key-delete_key_other key (scope_key kind' id') m h),
    )
