-- ===== src/UserPositions/Load.antt =====
-- What loading makes of the stored positions (`loadUserPositions` of web/app.js).
use new_a.Common.{
  Bool, true, false, not, ◌&&◌, ◌||◌, List, [], ◌∷◌, map, Option, none, some, length, ◌==◌, Text,
  ◌===◌, ===_iff, is_nonempty, has, no_repeats, filter, if◌then◌else◌, ◌≡◌, sym, refl, ap, ◌∙◌,
  arith, inl, inr, Bool-cases,
}
use new_a.UserPositions.{
  UserPosition, position_key, Catalog, Payload, request_failed, no_items, with_items, keep_first,
  apply_local, load_user_positions, save_nonempty, save_user_positions,
}

module _ {N : Type 0} where
  -- Some stored entry has this identifier, which is not empty.
  abbrev pub is_stored : List (Option (UserPosition N)) → Text → Bool
  is_stored [] id = false
  is_stored (none ∷ items) id = is_stored items id
  is_stored (some p ∷ items) id = (is_nonempty p.id && p.id === id) || is_stored items id

  has-keep_first :
      (items : List (Option (UserPosition N))) (seen : List Text) (id : Text)
      → has (map position_key (keep_first items seen)) id
        ≡ (is_stored items id && not (has seen id))
  unfolding keep_first has
  has-keep_first [] seen id = refl
  has-keep_first (none ∷ items) seen id = has-keep_first items seen id
  has-keep_first (some p ∷ items) seen id =
      elim (Bool-cases (not (is_nonempty p.id) || has seen p.id)) [
        | inl skipped ↦
            rw skipped (ground (arith, skipped, has-keep_first items seen id, ===_iff p.id id))
        | inr kept ↦
            rw kept (ground (arith, kept, has-keep_first items (p.id ∷ seen) id, ===_iff p.id id))
      ]

  no_repeats-keep_first :
      (items : List (Option (UserPosition N))) (seen : List Text)
      → no_repeats (map position_key (keep_first items seen)) ≡ true
  unfolding keep_first has no_repeats
  no_repeats-keep_first [] seen = refl
  no_repeats-keep_first (none ∷ items) seen = no_repeats-keep_first items seen
  no_repeats-keep_first (some p ∷ items) seen =
      elim (Bool-cases (not (is_nonempty p.id) || has seen p.id)) [
        | inl skipped ↦ rw skipped (no_repeats-keep_first items seen)
        | inr kept ↦ rw kept (
            ground (
              arith,
              has-keep_first items (p.id ∷ seen) p.id,
              no_repeats-keep_first items (p.id ∷ seen),
              ===_iff p.id p.id,
            ))
      ]

  items-apply_local :
      (items : List (Option (UserPosition N))) (s : Catalog N)
      → (apply_local items s).items ≡ keep_first items []
  unfolding apply_local
  items-apply_local items s = elim (Bool-cases (length (keep_first items []) == length items)) [
    | inl same ↦ rw same refl
    | inr fewer ↦ rw fewer refl
  ]

  items-save_nonempty :
      (items : List (UserPosition N)) (s : Catalog N) → (save_nonempty items s).items ≡ s.items
  unfolding save_user_positions
  items-save_nonempty [] s = refl
  items-save_nonempty (p ∷ ps) s = refl

  -- The entries that are objects with an identifier.
  abbrev pub with_ids : List (Option (UserPosition N)) → List (UserPosition N)
  with_ids [] = []
  with_ids (none ∷ items) = with_ids items
  with_ids (some p ∷ items) = if is_nonempty p.id then p ∷ with_ids items else with_ids items

  -- Whether an entry in front has the identifier.
  abbrev other_than : Text → UserPosition N → Bool
  other_than id p = not (id === p.id)

  unfoldable pub first_ones : List (UserPosition N) → List (UserPosition N)
  first_ones [] = []
  first_ones (p ∷ ps) = p ∷ filter (other_than p.id) (first_ones ps)

  abbrev unseen : List Text → UserPosition N → Bool
  unseen seen p = not (has seen p.id)

  filter-unseen_cons :
      (id : Text) (seen : List Text) (ps : List (UserPosition N))
      → filter (unseen (id ∷ seen)) ps ≡ filter (unseen seen) (filter (other_than id) ps)
  unfolding has
  filter-unseen_cons id seen [] = refl
  filter-unseen_cons id seen (p ∷ ps) = elim (Bool-cases (id === p.id)) [
    | inl same ↦ rw (same, filter-unseen_cons id seen ps) refl
    | inr other ↦ rw (other, filter-unseen_cons id seen ps) refl
  ]

  filter-seen :
      (id : Text) (seen : List Text) (ps : List (UserPosition N))
      → has seen id ≡ true
      → filter (unseen seen) (filter (other_than id) ps) ≡ filter (unseen seen) ps
  filter-seen id seen [] h = refl
  filter-seen id seen (p ∷ ps) h = elim (Bool-cases (id === p.id)) [
    | inl same ↦
        let there : has seen p.id ≡ true = ap (has seen) (sym ((===_iff id p.id).0 same)) ∙ h in
        rw (same, there) (filter-seen id seen ps h)
    | inr other ↦ rw (other, filter-seen id seen ps h) refl
  ]

  keep_first-eq :
      (items : List (Option (UserPosition N))) (seen : List Text)
      → keep_first items seen ≡ filter (unseen seen) (first_ones (with_ids items))
  unfolding keep_first first_ones
  keep_first-eq [] seen = refl
  keep_first-eq (none ∷ items) seen = keep_first-eq items seen
  keep_first-eq (some p ∷ items) seen = elim (Bool-cases (is_nonempty p.id)) [
    | inr blank ↦ rw blank (keep_first-eq items seen)
    | inl named ↦ elim (Bool-cases (has seen p.id)) [
      | inl known ↦
          rw (named, known)
            (keep_first-eq items seen
              ∙ sym (filter-seen p.id seen (first_ones (with_ids items)) known))
      | inr fresh ↦
          rw (named, fresh)
            (ap (λ r. p ∷ r)
              (keep_first-eq items (p.id ∷ seen)
                ∙ filter-unseen_cons p.id seen (first_ones (with_ids items))))
    ]
  ]

  filter-unseen_nil : (ps : List (UserPosition N)) → filter (unseen []) ps ≡ ps
  unfolding has
  filter-unseen_nil [] = refl
  filter-unseen_nil (p ∷ ps) = ap (λ r. p ∷ r) (filter-unseen_nil ps)

  -- What loading takes.
  abbrev pub loaded : Payload N → List (Option (UserPosition N)) → List (UserPosition N)
  loaded (with_items (p ∷ ps)) local_items = p ∷ ps
  loaded _ local_items = first_ones (with_ids local_items)

  local_lem :
      (local_items : List (Option (UserPosition N))) (s : Catalog N)
      → (apply_local local_items s).items ≡ first_ones (with_ids local_items)
  local_lem local_items s =
      items-apply_local local_items s
      ∙ keep_first-eq local_items []
      ∙ filter-unseen_nil (first_ones (with_ids local_items))

  loaded_lem :
      (payload : Payload N) (local_items : List (Option (UserPosition N))) (s : Catalog N)
      → (load_user_positions payload local_items s).items ≡ loaded payload local_items
  unfolding load_user_positions
  loaded_lem request_failed local_items s = local_lem local_items s
  loaded_lem no_items local_items s = local_lem local_items s
  loaded_lem (with_items []) local_items s =
      items-save_nonempty (apply_local local_items s).items (apply_local local_items s)
      ∙ local_lem local_items s
  loaded_lem (with_items (p ∷ ps)) local_items s = refl

  no_repeats-first_ones :
      (local_items : List (Option (UserPosition N)))
      → no_repeats (map position_key (first_ones (with_ids local_items))) ≡ true
  no_repeats-first_ones local_items =
      ap (λ ps. no_repeats (map position_key ps))
        (sym (keep_first-eq local_items [] ∙ filter-unseen_nil (first_ones (with_ids local_items))))
      ∙ no_repeats-keep_first local_items []

  -- Loading takes the server's positions as they are where it sends any. Otherwise it takes the local
  -- entries that are objects with an identifier, unchanged and in their order, of those with the same
  -- identifier the first, so that, for an answer without positions, no identifier is there twice.
  pub load_user_positions-items :
      (payload : Payload N) (local_items : List (Option (UserPosition N))) (s : Catalog N)
      → ((load_user_positions payload local_items s).items ≡ loaded payload local_items)
        × (no_repeats (map position_key (load_user_positions no_items local_items s).items) ≡ true)
  load_user_positions-items payload local_items s = (
    loaded_lem payload local_items s,
    ap (λ ps. no_repeats (map position_key ps)) (loaded_lem no_items local_items s)
        ∙ no_repeats-first_ones local_items,
  )
