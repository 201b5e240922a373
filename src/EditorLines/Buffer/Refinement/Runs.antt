-- ===== src/EditorLines/Buffer/Refinement/Runs.antt =====
-- Sequences of changes of the buffer of web/app.js.
use new_a.Common.{
  true, List, [], ◌∷◌, none, some, find, Text, ◌===◌, ===_refl, ◌≡◌, refl, arith, Option-cases, inl,
  inr, ap, upsert, ◌∙◌,
}
use mathlib.Core.Path.{fun_ext}
use new_a.Number.{Arithmetic}
use new_a.EditorLines.{Source, gsn, user_position, Node, Position, Editor}
use new_a.EditorLines.Buffer.{item_matches, item_from_gsn_node, item_from_user_position}
use new_a.EditorLines.Buffer.Refinement.{
  IsKeyed, ItemMap, items_by_key, set_key, Change, upsert_gsn, remove_gsn, upsert_position,
  remove_position, run, run_map, find_holds, items_by_key-upsert, items_by_key-remove_last,
  upsert-IsKeyed, remove_last-IsKeyed,
}

module _ (a : Arithmetic) where
  open a use {Num}

  unfoldable pub run_all : List (Change a) → Editor a → Editor a
  unfolding run
  run_all [] s = s
  run_all (c ∷ cs) s = run_all cs (run a c s)

  unfoldable pub run_all_map : List (Position a) → List (Change a) → ItemMap a → ItemMap a
  unfolding run_map
  run_all_map positions [] m = m
  run_all_map positions (c ∷ cs) m = run_all_map positions cs (run_map a positions c m)

  gsn_matches :
      (node : Node) (q : Num) → item_matches a gsn node.code (item_from_gsn_node a node q) ≡ true
  unfolding item_from_gsn_node
  gsn_matches node q = ===_refl node.code

  position_matches :
      (id : Text) (position : Position a) (q : Num)
      → position.id === id ≡ true
      → item_matches a user_position id (item_from_user_position a position q) ≡ true
  unfolding item_from_user_position
  position_matches id position q h = h

  -- One change keeps the keys apart and does to the map what it means.
  abbrev Agrees : Change a → Editor a → Type 0
  Agrees c s =
      IsKeyed a (run a c s).buffer
      × ((source : Source) (id : Text)
          → items_by_key a (run a c s).buffer source id
            ≡ run_map a s.user_positions c (items_by_key a s.buffer) source id)
      × ((run a c s).user_positions ≡ s.user_positions)

  run_unknown :
      (id : Text) (q : Num) (s : Editor a)
      → find (λ p. p.id === id) s.user_positions ≡ none
      → run a (upsert_position id q) s ≡ s
  unfolding run
  run_unknown id q s h = ground (arith, h)

  run_known :
      (id : Text) (q : Num) (s : Editor a) (position : Position a)
      → find (λ p. p.id === id) s.user_positions ≡ some position
      → run a (upsert_position id q) s ≡ record s {
        buffer =
            upsert
              (item_matches a user_position id)
              (item_from_user_position a position q)
              s.buffer;
      }
  unfolding run
  run_known id q s position h = ground (arith, h)

  run_map_unknown :
      (id : Text) (q : Num) (positions : List (Position a)) (m : ItemMap a)
      → find (λ p. p.id === id) positions ≡ none
      → run_map a positions (upsert_position id q) m ≡ m
  unfolding run_map
  run_map_unknown id q positions m h = ground (arith, h)

  pub run_map_known :
      (id : Text) (q : Num) (positions : List (Position a)) (m : ItemMap a) (position : Position a)
      → find (λ p. p.id === id) positions ≡ some position
      → run_map a positions (upsert_position id q) m
        ≡ set_key a user_position id (some (item_from_user_position a position q)) m
  unfolding run_map
  run_map_known id q positions m position h = ground (arith, h)

  run-Agrees : (c : Change a) (s : Editor a) → IsKeyed a s.buffer → Agrees c s
  unfolding run run_map
  run-Agrees (upsert_gsn node q) s h =
      let m = gsn_matches node q in
      (
        upsert-IsKeyed a gsn node.code _ s.buffer m h,
        items_by_key-upsert a gsn node.code _ s.buffer m,
        refl,
      )
  run-Agrees (remove_gsn code) s h = (
    remove_last-IsKeyed a gsn code s.buffer h,
    items_by_key-remove_last a gsn code s.buffer h,
    refl,
  )
  run-Agrees (upsert_position id q) s h =
      elim (Option-cases (find (λ p. p.id === id) s.user_positions)) [
        | inl k ↦
            rw
              (
                run_unknown id q s k,
                run_map_unknown id q s.user_positions (items_by_key a s.buffer) k,
              )
              (h, λ source id'. refl, refl)
        | inr (position, k) ↦
            let m =
              position_matches id position q
                (find_holds (λ p. p.id === id) s.user_positions position k) in
            rw
              (
                run_known id q s position k,
                run_map_known id q s.user_positions (items_by_key a s.buffer) position k,
              )
              (
                upsert-IsKeyed a user_position id _ s.buffer m h,
                items_by_key-upsert a user_position id _ s.buffer m,
                refl,
              )
      ]
  run-Agrees (remove_position id) s h = (
    remove_last-IsKeyed a user_position id s.buffer h,
    items_by_key-remove_last a user_position id s.buffer h,
    refl,
  )

  pub items_by_key-run :
      (c : Change a) (s : Editor a)
      → IsKeyed a s.buffer
      → items_by_key a (run a c s).buffer ≡ run_map a s.user_positions c (items_by_key a s.buffer)
  items_by_key-run c s h = fun_ext (λ source. fun_ext (λ id. (run-Agrees c s h).1 source id))

  -- The buffer is a map: after any sequence of changes of a buffer in which no two items have the
  -- same source and identifier, this still holds, and the item found for each source and identifier
  -- is the one that the changes leave when each is read as setting or clearing one key of a map.
  pub items_by_key-run_all :
      (cs : List (Change a)) (s : Editor a)
      → IsKeyed a s.buffer
      → IsKeyed a (run_all cs s).buffer
        × (items_by_key a (run_all cs s).buffer
            ≡ run_all_map s.user_positions cs (items_by_key a s.buffer))
  unfolding run_all run_all_map
  items_by_key-run_all [] s h = (h, refl)
  items_by_key-run_all (c ∷ cs) s h =
      let step = run-Agrees c s h in
      let rest = items_by_key-run_all cs (run a c s) (step.0) in
      (
        rest.0,
        rest.1
            ∙ ap (λ ps. run_all_map ps cs (items_by_key a (run a c s).buffer)) (step.2)
            ∙ ap (run_all_map s.user_positions cs) (items_by_key-run c s h),
      )
