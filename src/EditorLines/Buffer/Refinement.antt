-- ===== src/EditorLines/Buffer/Refinement.antt =====
-- The buffer of web/app.js as a map: what its operations do to the item that a source and an
-- identifier find.
pub mod Runs
use new_a.Common.{
  ℕ, Bool, true, false, ◌&&◌, List, [], ◌∷◌, Option, none, some, find, count, if◌then◌else◌, Text,
  ◌===◌, ===_iff, ===_refl, ◌≡◌, ◌≤◌, refl, arith, Option-cases, Bool-cases, inl, inr, upsert,
  remove_last, sym, ap, ◌∙◌, find-upsert, count-upsert, find_absent, count-remove_last,
  find-upsert_other, count-upsert_other, find-remove_last_other, count-remove_last_other,
}
use new_a.Number.{Arithmetic}
use new_a.EditorLines.{
  Source, gsn, user_position, other, same_source, Node, BufferItem, Position, Editor,
}
use new_a.EditorLines.Buffer.{
  item_matches, item_from_gsn_node, item_from_user_position, upsert_gsn_in_buffer,
  remove_gsn_from_buffer, upsert_user_position_in_buffer, remove_user_position_from_buffer,
}

pub same_source_refl : (s : Source) → same_source s s ≡ true
same_source_refl gsn = refl
same_source_refl user_position = refl
same_source_refl other = refl

same_source_eq : (s t : Source) → same_source s t ≡ true → s ≡ t
same_source_eq gsn gsn h = refl
same_source_eq user_position user_position h = refl
same_source_eq other other h = refl
same_source_eq gsn user_position h = cc
same_source_eq gsn other h = cc
same_source_eq user_position gsn h = cc
same_source_eq user_position other h = cc
same_source_eq other gsn h = cc
same_source_eq other user_position h = cc

abbrev pub same_key : Source → Text → Source → Text → Bool
same_key source id source' id' = same_source source source' && id === id'

pub find_holds {ℓ} :
    {A : Type ℓ} (p : A → Bool) (xs : List A) (x : A) → find p xs ≡ some x → p x ≡ true
find_holds p [] x h = cc
find_holds p (y ∷ ys) x h = elim (Bool-cases (p y)) [
  | inl k ↦ ground (arith, k)
  | inr k ↦ ground (arith, k, find_holds p ys x)
]

module _ (a : Arithmetic) where
  open a use {Num}

  -- No two items have the same source and identifier.
  abbrev pub IsKeyed : List (BufferItem a) → Type 0
  IsKeyed items = (source : Source) (id : Text) → count (item_matches a source id) items ≤ 1

  -- A buffer without its order.
  abbrev pub ItemMap : Type 0
  ItemMap = Source → Text → Option (BufferItem a)

  abbrev pub items_by_key : List (BufferItem a) → ItemMap
  items_by_key items source id = find (item_matches a source id) items

  abbrev pub set_key : Source → Text → Option (BufferItem a) → ItemMap → ItemMap
  set_key source id item m source' id' =
      if same_key source id source' id' then item else m source' id'

  -- The four changes of the buffer, with their arguments.
  pub data Change : Type 0 where
    upsert_gsn : Node → Num → Change
    remove_gsn : Text → Change
    upsert_position : Text → Num → Change
    remove_position : Text → Change

  unfoldable pub run : Change → Editor a → Editor a
  unfolding upsert_gsn_in_buffer remove_gsn_from_buffer upsert_user_position_in_buffer
      remove_user_position_from_buffer
  run (upsert_gsn node q) s = upsert_gsn_in_buffer a node q s
  run (remove_gsn code) s = remove_gsn_from_buffer a code s
  run (upsert_position id q) s = upsert_user_position_in_buffer a id q s
  run (remove_position id) s = remove_user_position_from_buffer a id s

  -- What a change means for the map; a position of the user that is not known changes nothing.
  unfoldable pub run_map : List (Position a) → Change → ItemMap → ItemMap
  unfolding item_from_gsn_node item_from_user_position
  run_map positions (upsert_gsn node q) m =
      set_key gsn node.code (some (item_from_gsn_node a node q)) m
  run_map positions (remove_gsn code) m = set_key gsn code none m
  run_map positions (upsert_position id q) m = elim (find (λ p. p.id === id) positions) [
    | none ↦ m
    | some position ↦ set_key user_position id (some (item_from_user_position a position q)) m
  ]
  run_map positions (remove_position id) m = set_key user_position id none m

  matches_disjoint :
      (source : Source) (id : Text) (source' : Source) (id' : Text)
      → same_key source id source' id' ≡ false
      → (x : BufferItem a) → item_matches a source id x ≡ true
      → item_matches a source' id' x ≡ false
  matches_disjoint source id source' id' h x k = ground (
    arith,
    same_source_eq x.source source,
    same_source_eq x.source source',
    same_source_refl source,
    ===_iff x.source_id id,
    ===_iff x.source_id id',
    ===_refl id,
  )

  matches_same :
      (source : Source) (id : Text) (source' : Source) (id' : Text)
      → same_key source id source' id' ≡ true
      → (source ≡ source') × (id ≡ id')
  matches_same source id source' id' h =
      ground (arith, same_source_eq source source', ===_iff id id')

  matches_at :
      (source : Source) (id : Text) (source' : Source) (id' : Text)
      → same_key source id source' id' ≡ true
      → item_matches a source' id' ≡ item_matches a source id
  matches_at source id source' id' h =
      let e = matches_same source id source' id' h in
      sym (ap (λ s. item_matches a s id) (e.0) ∙ ap (λ i. item_matches a source' i) (e.1))

  pub items_by_key-upsert :
      (source : Source) (id : Text) (y : BufferItem a) (items : List (BufferItem a))
      → item_matches a source id y ≡ true
      → (source' : Source) (id' : Text)
      → items_by_key (upsert (item_matches a source id) y items) source' id'
        ≡ set_key source id (some y) (items_by_key items) source' id'
  items_by_key-upsert source id y items h source' id' =
      let p = item_matches a source id in
      elim (Bool-cases (same_key source id source' id')) [
        | inl k ↦ rw (k, matches_at source id source' id' k) (find-upsert p y items h)
        | inr k ↦ rw k (
            find-upsert_other p (item_matches a source' id')
              (matches_disjoint source id source' id' k) y items h)
      ]

  pub items_by_key-remove_last :
      (source : Source) (id : Text) (items : List (BufferItem a))
      → IsKeyed items
      → (source' : Source) (id' : Text)
      → items_by_key (remove_last (item_matches a source id) items) source' id'
        ≡ set_key source id none (items_by_key items) source' id'
  items_by_key-remove_last source id items h source' id' =
      let p = item_matches a source id in
      elim (Bool-cases (same_key source id source' id')) [
        | inl k ↦
            rw (k, matches_at source id source' id' k)
              (find_absent p (remove_last p items) (count-remove_last p items (h source id)))
        | inr k ↦ rw k (
            find-remove_last_other p (item_matches a source' id')
              (matches_disjoint source id source' id' k) items (h source id))
      ]

  pub upsert-IsKeyed :
      (source : Source) (id : Text) (y : BufferItem a) (items : List (BufferItem a))
      → item_matches a source id y ≡ true
      → IsKeyed items
      → IsKeyed (upsert (item_matches a source id) y items)
  upsert-IsKeyed source id y items h k source' id' =
      let p = item_matches a source id in
      elim (Bool-cases (same_key source id source' id')) [
        | inl l ↦
            rw (matches_at source id source' id' l)
              (omega (arith, count-upsert p y items h (k source id)))
        | inr l ↦ omega (
          arith,
          k source' id',
          count-upsert_other p (item_matches a source' id')
              (matches_disjoint source id source' id' l) y items h,
        )
      ]

  pub remove_last-IsKeyed :
      (source : Source) (id : Text) (items : List (BufferItem a))
      → IsKeyed items
      → IsKeyed (remove_last (item_matches a source id) items)
  remove_last-IsKeyed source id items k source' id' =
      let p = item_matches a source id in
      elim (Bool-cases (same_key source id source' id')) [
        | inl l ↦
            rw (matches_at source id source' id' l)
              (omega (arith, count-remove_last p items (k source id)))
        | inr l ↦ omega (
          arith,
          k source' id',
          count-remove_last_other p (item_matches a source' id')
              (matches_disjoint source id source' id' l) items (k source id),
        )
      ]
