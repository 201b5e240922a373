-- ===== src/TreeEditing/Prune/Reference.antt =====
-- What `pruneOpenEstimates` (web/app.js) does, without its loop.
use mathlib.Core.Path.{subst}
use new_a.Common.{
  ℕ, zero, suc, ◌≤◌, Bool, true, false, ◌||◌, List, [], ◌∷◌, map, none, some, length, filter,
  get_elem?, take, remove_at, if◌then◌else◌, Text, ◌===◌, ===_iff, has, ◌≡◌, refl, sym, ap, ◌∙◌,
  arith, inl, inr, Bool-cases,
}
use new_a.ProjectTree.{estimate_key}
use new_a.EditorTabs.{buffer_tab}
use new_a.EstimateLocks.{OpenEstimate, drop_lock}
use new_a.TreeEditing.{Workspace, set_client, invalidate_estimate_text_draft}
use new_a.TreeEditing.Prune.Dropped.{
  is_dropped, is_valid, left_at, take-remove_at, has-take_next, left_at_valid, left_at_invalid,
  left_at_end, get_elem?-below, length-remove_at,
}
use new_a.TreeEditing.Prune.{close_pruned, prune_below, prune_open_estimates}

-- What closing the invalid ones of the estimates `es` makes of the state, `kept` being left open.
pub record IsPruned (valid_ids : List Text) (es kept : List OpenEstimate) (before after : Workspace)
    : Type 0 where
  pub kept_open : after.client.open_estimates ≡ kept
  pub locks :
      (id : Text)
      → after.client.estimate_locks id
        ≡ (if is_dropped valid_ids es id then none else before.client.estimate_locks id)
  pub drafts :
      (id : Text)
      → after.text_drafts id ≡ (if is_dropped valid_ids es id then none else before.text_drafts id)
  pub tab : after.client.editor_tab ≡ (
      if is_dropped valid_ids es before.client.editor_tab
      then buffer_tab
      else before.client.editor_tab)

is_dropped_valid :
    (valid_ids : List Text) (n : ℕ) (es : List OpenEstimate) (e : OpenEstimate) (id : Text)
    → get_elem? es n ≡ some e
    → has valid_ids e.id ≡ true
    → is_dropped valid_ids (take (suc n) es) id ≡ is_dropped valid_ids (take n es) id
is_dropped_valid valid_ids n es e id h v =
    ground (arith, has-take_next valid_ids n es e id h, v, ===_iff e.id id)

is_dropped_invalid :
    (valid_ids : List Text) (n : ℕ) (es : List OpenEstimate) (e : OpenEstimate) (id : Text)
    → get_elem? es n ≡ some e
    → has valid_ids e.id ≡ false
    → is_dropped valid_ids (take (suc n) es) id
      ≡ (is_dropped valid_ids (take n es) id || e.id === id)
is_dropped_invalid valid_ids n es e id h v =
    ground (arith, has-take_next valid_ids n es e id h, v, ===_iff e.id id)

either {ℓ} :
    {A : Type ℓ} (a b : Bool) (x y : A)
    → (if a then x else (if b then x else y)) ≡ (if a || b then x else y)
either true b x y = refl
either false b x y = refl

===_swapped : (a b : Text) → (a === b) ≡ (b === a)
===_swapped a b = ground (arith, ===_iff a b, ===_iff b a)

tab_lem :
    (dropped : Text → Bool) (tab id : Text)
    → (if dropped (if tab === id then buffer_tab else tab)
        then buffer_tab
        else (if tab === id then buffer_tab else tab))
      ≡ (if dropped tab || id === tab then buffer_tab else tab)
tab_lem dropped tab id = elim (Bool-cases (id === tab)) [
  | inl same ↦ rw (===_swapped tab id, same) (both_ways (dropped buffer_tab) (dropped tab))
  | inr other ↦ rw (===_swapped tab id, other) (or_false (dropped tab))
]
  where
    both_ways :
        (a b : Bool)
        → (if a then buffer_tab else buffer_tab) ≡ (if b || true then buffer_tab else tab)
    both_ways true true = refl
    both_ways true false = refl
    both_ways false true = refl
    both_ways false false = refl

    or_false :
        (b : Bool) → (if b then buffer_tab else tab) ≡ (if b || false then buffer_tab else tab)
    or_false true = refl
    or_false false = refl

prune_below_valid :
    (valid_ids : List Text) (n : ℕ) (w : Workspace) (e : OpenEstimate)
    → get_elem? w.client.open_estimates n ≡ some e
    → has valid_ids e.id ≡ true
    → prune_below (suc n) valid_ids w ≡ prune_below n valid_ids w
unfolding prune_below
prune_below_valid valid_ids n w e h v = rw (h, v) refl

abbrev closed : ℕ → Text → Workspace → Workspace
closed n id w = invalidate_estimate_text_draft id (set_client (close_pruned n id w.client) w)

prune_below_invalid :
    (valid_ids : List Text) (n : ℕ) (w : Workspace) (e : OpenEstimate)
    → get_elem? w.client.open_estimates n ≡ some e
    → has valid_ids e.id ≡ false
    → prune_below (suc n) valid_ids w ≡ prune_below n valid_ids (closed n e.id w)
unfolding prune_below
prune_below_invalid valid_ids n w e h v = rw (h, v) refl

IsPruned-valid :
    (valid_ids : List Text) (n : ℕ) (w : Workspace) (e : OpenEstimate) (after : Workspace)
    → get_elem? w.client.open_estimates n ≡ some e
    → has valid_ids e.id ≡ true
    → IsPruned valid_ids
        (take n w.client.open_estimates)
        (left_at valid_ids n w.client.open_estimates)
        w
        after
    → IsPruned valid_ids
        (take (suc n) w.client.open_estimates)
        (left_at valid_ids (suc n) w.client.open_estimates)
        w
        after
IsPruned-valid valid_ids n w e after h v r =
    let es = w.client.open_estimates in
    record {
      kept_open = r.kept_open ∙ sym (left_at_valid valid_ids n es e h v);
      locks = λ id. rw (is_dropped_valid valid_ids n es e id h v) (r.locks id);
      drafts = λ id. rw (is_dropped_valid valid_ids n es e id h v) (r.drafts id);
      tab = rw (is_dropped_valid valid_ids n es e w.client.editor_tab h v) r.tab;
    }

IsPruned-invalid :
    (valid_ids : List Text) (n : ℕ) (w : Workspace) (e : OpenEstimate) (after : Workspace)
    → get_elem? w.client.open_estimates n ≡ some e
    → has valid_ids e.id ≡ false
    → IsPruned valid_ids
        (take n (remove_at n w.client.open_estimates))
        (left_at valid_ids n (remove_at n w.client.open_estimates))
        (closed n e.id w)
        after
    → IsPruned valid_ids
        (take (suc n) w.client.open_estimates)
        (left_at valid_ids (suc n) w.client.open_estimates)
        w
        after
unfolding invalidate_estimate_text_draft drop_lock
IsPruned-invalid valid_ids n w e after h v r =
    let es = w.client.open_estimates in
    record {
      kept_open = r.kept_open ∙ sym (left_at_invalid valid_ids n es e h v);
      locks = λ id.
          r.locks id
          ∙ rw (take-remove_at valid_ids n es, is_dropped_invalid valid_ids n es e id h v)
              (either (is_dropped valid_ids (take n es) id) (e.id === id) none
                (w.client.estimate_locks id));
      drafts = λ id.
          r.drafts id
          ∙ rw (take-remove_at valid_ids n es, is_dropped_invalid valid_ids n es e id h v)
              (either (is_dropped valid_ids (take n es) id) (e.id === id) none (w.text_drafts id));
      tab =
          r.tab
          ∙ rw
              (
                take-remove_at valid_ids n es,
                is_dropped_invalid valid_ids n es e w.client.editor_tab h v,
              )
              (tab_lem (is_dropped valid_ids (take n es)) w.client.editor_tab e.id);
    }

IsPruned-none :
    (valid_ids : List Text) (w : Workspace)
    → IsPruned valid_ids [] w.client.open_estimates w (prune_below 0 valid_ids w)
unfolding prune_below has
IsPruned-none valid_ids w = record {
  kept_open = refl;
  locks = λ id. refl;
  drafts = λ id. refl;
  tab = refl;
}

IsPruned-below :
    (valid_ids : List Text) (n : ℕ) (w : Workspace)
    → n ≤ length w.client.open_estimates
    → IsPruned valid_ids
        (take n w.client.open_estimates)
        (left_at valid_ids n w.client.open_estimates)
        w
        (prune_below n valid_ids w)
unfolding invalidate_estimate_text_draft
IsPruned-below valid_ids zero w k = IsPruned-none valid_ids w
IsPruned-below valid_ids (suc n) w k =
    let found = get_elem?-below valid_ids n w.client.open_estimates k in
    let e : OpenEstimate = found.0 in
    elim (Bool-cases (has valid_ids e.id)) [
      | inl valid ↦ rw (prune_below_valid valid_ids n w e found.1 valid) (
          IsPruned-valid valid_ids n w e _ found.1 valid
            (IsPruned-below valid_ids n w (omega (arith, k))))
      | inr invalid ↦ rw (prune_below_invalid valid_ids n w e found.1 invalid) (
          IsPruned-invalid valid_ids n w e _ found.1 invalid (
            IsPruned-below valid_ids n (closed n e.id w)
              (omega (arith, k, length-remove_at valid_ids n w.client.open_estimates k))))
    ]

take-length : (es : List OpenEstimate) → take (length es) es ≡ es
take-length [] = refl
take-length (e ∷ es) = ap (λ r. e ∷ r) (take-length es)

-- Pruning closes exactly the open estimates that the tree does not hold: the others stay open in their
-- order, the lock and the draft of each closed one are dropped and no others, and the tab shown is the
-- buffer where it was a closed one, and the old tab otherwise.
pub prune_open_estimates-IsPruned :
    (w : Workspace)
    → IsPruned
        (map estimate_key w.tree.estimates)
        w.client.open_estimates
        (filter (is_valid (map estimate_key w.tree.estimates)) w.client.open_estimates)
        w
        (prune_open_estimates w)
unfolding prune_open_estimates
prune_open_estimates-IsPruned w =
    let valid_ids = map estimate_key w.tree.estimates in
    let es = w.client.open_estimates in
    subst
      (λ xs.
        IsPruned valid_ids xs (filter (is_valid valid_ids) es) w
          (prune_below (length es) valid_ids w))
      (take-length es)
      (subst
        (λ xs. IsPruned valid_ids (take (length es) es) xs w (prune_below (length es) valid_ids w))
        (left_at_end valid_ids es) (IsPruned-below valid_ids (length es) w (omega arith)))
