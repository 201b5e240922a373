-- ===== src/UserPositionImport/Dialog.antt =====
-- A session of the import dialog (web/app.js): the state is reset when the dialog opens
-- (`openUserPositionImportDialog`), every click is one application of the selection, and the
-- confirmation collects the identifiers.
use new_a.Common.{Bool, false, List, [], ◌∷◌, ◌≡◌, refl, arith, if◌then◌else◌, Text, has, has-nil}
use new_a.ProjectTree.{Object, Estimate, Tree, Kind}
use new_a.ProjectTree.Scope.{IsWellFormed, Node}
use new_a.UserPositionImport.{
  Selection, reset_state, is_estimate_selected, apply_selection, collect_estimate_ids,
}
use new_a.UserPositionImport.Selected.{has-collect_estimate_ids}
use new_a.UserPositionImport.Apply.{IsNormal, targets}
use new_a.UserPositionImport.Refinement.{is_estimate_selected-apply_selection}
use new_a.UserPositionImport.Normal.{apply_selection-IsNormal}

-- A change of a check box, as the handler of `change` events reads it from the element.
pub record Click : Type 0 where
  pub kind : Kind
  pub id : Text
  pub checked : Bool

unfoldable pub run_clicks : (Text → Text → Bool) → Tree → List Click → Selection → Selection
run_clicks code_le t [] s = s
run_clicks code_le t (c ∷ cs) s =
    run_clicks code_le t cs (apply_selection code_le t c.kind c.id c.checked s)

-- The state of one estimate, kept by itself: the last click above it decides.
unfoldable pub last_click : Estimate → Object → List Click → Bool → Bool
last_click e o [] b = b
last_click e o (c ∷ cs) b = last_click e o cs (if targets c.kind c.id e o then c.checked else b)

module _ (code_le : Text → Text → Bool) {t : Tree} (w : IsWellFormed t) where
  reset_state-IsNormal : IsNormal t reset_state
  unfolding reset_state
  reset_state-IsNormal = record {
    objects_normal = λ e o n p. has-nil o.id;
    estimates_normal = λ e o n p. has-nil e.id;
  }

  run_clicks_selected :
      (cs : List Click) (s : Selection) {e : Estimate} {o : Object}
      → IsNormal t s
      → Node t e o
      → is_estimate_selected (run_clicks code_le t cs s) e o
        ≡ last_click e o cs (is_estimate_selected s e o)
  unfolding run_clicks last_click
  run_clicks_selected [] s h n = refl
  run_clicks_selected (c ∷ cs) s {e} {o} h n =
      let s' = apply_selection code_le t c.kind c.id c.checked s in
      ground (
        arith,
        run_clicks_selected cs s' (apply_selection-IsNormal code_le w c.kind c.id c.checked s h) n,
        is_estimate_selected-apply_selection code_le w c.kind c.id c.checked s h n,
      )

  reset_state_selected : (e : Estimate) (o : Object) → is_estimate_selected reset_state e o ≡ false
  unfolding reset_state is_estimate_selected
  reset_state_selected e o = ground (arith, has-nil o.construction_id, has-nil o.id, has-nil e.id)

  -- The import takes the estimates whose last click says so: after any sequence of clicks in a
  -- freshly opened dialog over a well-formed tree, the collected identifiers hold an estimate of the
  -- tree if and only if the last click on it, on its object, on its construction or on the whole
  -- tree was one that checked the box; an estimate that no click was above is not collected.
  pub collect_estimate_ids-run_clicks :
      (cs : List Click) {e : Estimate} {o : Object}
      → Node t e o
      → has (collect_estimate_ids t (run_clicks code_le t cs reset_state)) e.id
        ≡ last_click e o cs false
  collect_estimate_ids-run_clicks cs {e} {o} n = ground (
    arith,
    has-collect_estimate_ids w n (run_clicks code_le t cs reset_state),
    run_clicks_selected cs reset_state reset_state-IsNormal n,
    reset_state_selected e o,
  )
