-- ===== src/TreeEditing.antt =====
-- Editing the tree of constructions: `findConstructionEntity`, `cleanupConstructionTreeState`,
-- `removeEstimatePermanently`, `pruneOpenEstimates`, `deleteConstructionEntity` and
-- `deleteEstimateFromEditor` (web/app.js). The ends of the requests and of the dialogs are arguments,
-- and the requests that are sent are logged.
pub mod Dialog
pub mod Prune
pub mod Delete
mod Tests
use Prim.Native.String.{String}
use new_a.Common.{
  ℕ, zero, suc, ◌-◌, Bool, true, false, not, ◌&&◌, ◌||◌, List, [], ◌∷◌, ◌++◌, map, Option, none,
  some, length, filter, find, get_elem?, if◌then◌else◌, Text, codes, ◌===◌, is_nonempty, find_index,
  remove_at, has,
}
use new_a.ProjectTree.{
  Object, Estimate, Tree, Kind, all, construction, object, estimate, other, object_key,
  estimate_key, find_construction, find_object, find_estimate,
}
use new_a.EditorTabs.{buffer_tab, next_tab, or_kept}
use new_a.EstimateLocks.{
  Lock, Client, OpenEstimate, open_key, drop_lock, get_estimate_lock_info,
  is_estimate_locked_by_other, is_persisted_estimate_id,
}
use new_a.EstimateLocks.Acquire.{release_estimate_lock}

-- A request that changes the server's data; the fields of its body by name.
pub data ApiRequest : Type 0 where
  delete_at : (path : Text) → ApiRequest
  put_at post_at : (path : Text) → (body : List (Text × Text)) → ApiRequest

-- `client.estimate_ids` are the identifiers of `tree.estimates`.
pub record Workspace : Type 0 where
  pub tree : Tree
  pub construction_expanded : Text → Bool
  pub object_expanded : Text → Bool
  pub client : Client
  pub text_drafts : Text → Option Text
  pub shows_text : Bool
  pub message : Text
  pub requests : List ApiRequest

-- The state and, where the function throws, the message of the error.
abbrev pub Step : Type 0
Step = Workspace × Option Text

-- How the calls end that a deletion makes: `none` is success, and `some` the message of the error.
pub record Ends : Type 0 where
  pub confirmed : Bool
  pub draft_parsed : Option Text
  -- `persistOpenEstimate`, which may return without saving; it sends requests, changes the tree and
  -- the open estimate and may throw.
  pub persist : Workspace → Step
  pub deleted : Option Text
  pub fetched : Option Text
  -- The tree of the server, where it could be fetched.
  pub fetched_tree : Tree

abbrev is_found {ℓ} : {A : Type ℓ} → Option A → Bool
is_found none = false
is_found (some x) = true

-- Whether `findConstructionEntity` finds an entity.
unfoldable pub finds_construction_entity : Tree → Kind → Text → Bool
unfolding ◌===◌
finds_construction_entity t construction id = is_found (find_construction t id)
finds_construction_entity t object id = is_found (find_object t id)
finds_construction_entity t estimate id = is_found (find_estimate t id)
finds_construction_entity t _ id = false

abbrev collapse : Text → (Text → Bool) → Text → Bool
collapse id m x = if id === x then false else m x

abbrev collapse_all : List Text → (Text → Bool) → Text → Bool
collapse_all [] m = m
collapse_all (id ∷ ids) m = collapse_all ids (collapse id m)

unfoldable pub cleanup_construction_tree_state : Kind → Text → Workspace → Workspace
unfolding ◌===◌
cleanup_construction_tree_state construction id w = record w {
  construction_expanded = collapse id w.construction_expanded;
  object_expanded =
      collapse_all (map object_key (filter (λ o. o.construction_id === id) w.tree.objects))
        w.object_expanded;
}
cleanup_construction_tree_state object id w = record w {
  object_expanded = collapse id w.object_expanded;
}
cleanup_construction_tree_state _ id w = w

abbrev pub show : Text → Workspace → Workspace
show message w = record w { message = message }

abbrev pub send : ApiRequest → Workspace → Workspace
send request w = record w { requests = w.requests ++ request ∷ [] }

abbrev pub send_if : Bool → ApiRequest → Workspace → Workspace
send_if b request w = if b then send request w else w

abbrev pub set_client : Client → Workspace → Workspace
set_client c w = record w { client = c }

unfoldable pub invalidate_estimate_text_draft : Text → Workspace → Workspace
unfolding ◌===◌
invalidate_estimate_text_draft id w = record w {
  text_drafts = λ x. if id === x then none else w.text_drafts x;
}

-- `refreshConstructionData`.
abbrev set_tree : Tree → Workspace → Workspace
set_tree t w = record w {
  tree = t;
  client = record (w.client) { estimate_ids = map estimate_key t.estimates };
}

abbrev pub refresh_with : Option Text → Tree → Workspace → Step
refresh_with none t w = (set_tree t w, none)
refresh_with (some problem) t w = (w, some problem)

unfoldable pub refresh_construction_data : Ends → Workspace → Step
refresh_construction_data ends w = refresh_with ends.fetched ends.fetched_tree w

-- The estimate at `index` leaves the editor: `removeEstimatePermanently` in its `if (index >= 0)`.
abbrev pub remove_open : ℕ → Client → Client
remove_open index c = record c { open_estimates = remove_at index c.open_estimates }

abbrev pub estimate_path : Text → Text
estimate_path id = codes "/api/estimates/" ++ id

abbrev pub lock_path : Text → Text
lock_path id = estimate_path id ++ codes "/lock"

-- Whether `releaseEstimateLock` sends its request.
abbrev pub releases : Text → Client → Bool
releases id c = is_found c.me && is_persisted_estimate_id c id

abbrev pub close_at : Option ℕ → Text → Workspace → Workspace
close_at none id w = w
close_at (some index) id w =
    let left = remove_open index w.client in
    let released = release_estimate_lock id left in
    invalidate_estimate_text_draft id (
      set_client
        (record released {
          editor_tab =
              if released.editor_tab === id
              then or_kept (next_tab index (map open_key released.open_estimates))
                  released.editor_tab
              else released.editor_tab;
          gsn_loaded = false;
        })
        (send_if (releases id left) (delete_at (lock_path id)) w))

abbrev pub forget_lock : Text → Workspace → Workspace
forget_lock id w =
    set_client (record (w.client) { estimate_locks = drop_lock id (w.client.estimate_locks) }) w

abbrev pub after_delete : Option Text → Ends → Text → Workspace → Step
after_delete (some problem) ends id w = (w, some problem)
after_delete none ends id w =
    refresh_construction_data ends
      (forget_lock id (close_at (find_index (λ e. e.id === id) w.client.open_estimates) id w))

abbrev pub request_delete : Ends → Text → Workspace → Step
request_delete ends id w = after_delete ends.deleted ends id (send (delete_at (estimate_path id)) w)

abbrev pub after_persist : Step → Ends → Text → Step
after_persist (w, some problem) ends id = (w, some problem)
after_persist (w, none) ends id = request_delete ends id w

-- `syncEstimateTextDraftIfNeeded`, whose error is shown and thrown again.
abbrev pub synced : Text → Workspace → Workspace
synced id w = if w.shows_text then invalidate_estimate_text_draft id w else w

abbrev pub after_parse : Option Text → Ends → Text → Workspace → Step
after_parse (some problem) ends id w = (show problem w, some problem)
after_parse none ends id w = after_persist (ends.persist (synced id w)) ends id

unfoldable pub remove_estimate_permanently : Ends → Text → Workspace → Step
unfolding has find_index remove_at next_tab drop_lock release_estimate_lock is_persisted_estimate_id
    refresh_construction_data invalidate_estimate_text_draft ◌===◌
remove_estimate_permanently ends id w =
    if has (map open_key w.client.open_estimates) id
    then after_parse ends.draft_parsed ends id w
    else request_delete ends id w
