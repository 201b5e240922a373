-- ===== src/TreeEditing/Tests.antt =====
-- Editing the tree of web/app.js at concrete states.
use new_a.Common.{
  true, [], ◌∷◌, map, none, some, filter, codes, ◌===◌, is_space, returned, ◌≡◌, refl,
}
use new_a.ProjectTree.{object, estimate, estimate_key}
use new_a.EstimateLocks.{open_key}
use new_a.TreeEditing.{Workspace, Ends, delete_at, put_at, post_at, send}
use new_a.TreeEditing.Dialog.{save_construction_dialog}
use new_a.TreeEditing.Prune.{prune_open_estimates}
use new_a.TreeEditing.Prune.Dropped.{is_valid}
use new_a.TreeEditing.Prune.Reference.{IsPruned, prune_open_estimates-IsPruned}
use new_a.TreeEditing.Delete.{delete_construction_entity, delete_estimate_from_editor}

-- `a` is in the tree and held by another user; `a` and `b` are open, and `b` is not in the tree.
abbrev small : Workspace
small = record {
  tree = record {
    constructions = [];
    objects = [];
    estimates =
        record { id = codes "a"; object_id = codes "o"; calc_lines_total = 0; calc_lines_done = 0 }
        ∷ [];
  };
  construction_expanded = λ id. true;
  object_expanded = λ id. true;
  client = record {
    me = some (codes "me");
    estimate_ids = codes "a" ∷ [];
    open_estimates =
        record { id = codes "a"; object_id = codes "o" }
        ∷ record { id = codes "b"; object_id = codes "o" }
        ∷ [];
    editor_tab = codes "b";
    estimate_locks = λ id.
        some (record { estimate_id = id; user_id = codes "other"; user_name = codes "Other" });
    gsn_loaded = true;
    refreshes = 0;
  };
  text_drafts = λ id. some id;
  shows_text = true;
  message = [];
  requests = [];
}

abbrev all_well : Ends
all_well = record {
  confirmed = true;
  draft_parsed = none;
  persist = λ w. (send (put_at (codes "/api/estimates/a") []) w, none);
  deleted = none;
  fetched = none;
  fetched_tree = record { constructions = []; objects = []; estimates = [] };
}

prunes_b : map open_key (prune_open_estimates small).client.open_estimates ≡ codes "a" ∷ []
unfolding prune_open_estimates ◌===◌
prunes_b = refl

held_by_another :
    (delete_construction_entity all_well estimate (codes "a") small).message
    ≡ codes "Смета редактируется Other"
unfolding delete_construction_entity is_space ◌===◌
held_by_another = refl

deleted_in_editor :
    (delete_estimate_from_editor all_well (codes "a") small).requests
    ≡ put_at (codes "/api/estimates/a") []
      ∷ delete_at (codes "/api/estimates/a")
      ∷ delete_at (codes "/api/estimates/a/lock")
      ∷ []
unfolding delete_estimate_from_editor ◌===◌
deleted_in_editor = refl

adds_an_object :
    save_construction_dialog (record {
      kind = object;
      id = codes " ";
      parent_id = codes "c";
      code = codes " 1 ";
      name = codes "n";
    })
    ≡ returned (
        post_at (codes "/api/objects") (
          (codes "constructionId", codes "c")
          ∷ (codes "code", codes "1")
          ∷ (codes "name", codes "n")
          ∷ []))
unfolding save_construction_dialog is_space
adds_an_object = refl

prune_open_estimates-IsPruned_example :
    IsPruned
      (map estimate_key small.tree.estimates)
      small.client.open_estimates
      (filter (is_valid (map estimate_key small.tree.estimates)) small.client.open_estimates)
      small
      (prune_open_estimates small)
prune_open_estimates-IsPruned_example = prune_open_estimates-IsPruned small
