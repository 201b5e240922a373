-- ===== src/TreeEditing/Prune/Dropped.antt =====
-- The open estimates in front of an index and behind it, while `pruneOpenEstimates` (web/app.js) goes
-- from the last one to the first.
use new_a.Common.{
  ℕ, zero, suc, ◌≤◌, Bool, true, false, not, ◌&&◌, ◌||◌, List, [], ◌∷◌, ◌++◌, map, some, length,
  filter, get_elem?, take, drop, remove_at, Text, ◌===◌, has, ◌≡◌, refl, ap, arith,
}
use new_a.EstimateLocks.{OpenEstimate, open_key}

-- An identifier is among those that the estimates `es` lose.
abbrev pub is_dropped : List Text → List OpenEstimate → Text → Bool
is_dropped valid_ids es id = has (map open_key es) id && not (has valid_ids id)

module _ (valid_ids : List Text) where
  abbrev pub is_valid : OpenEstimate → Bool
  is_valid e = has valid_ids e.id

  abbrev pub left_at : ℕ → List OpenEstimate → List OpenEstimate
  left_at n es = filter is_valid (take n es) ++ drop n es

  pub take-remove_at : (n : ℕ) (es : List OpenEstimate) → take n (remove_at n es) ≡ take n es
  unfolding remove_at
  take-remove_at zero es = refl
  take-remove_at (suc n) [] = refl
  take-remove_at (suc n) (e ∷ es) = ap (λ r. e ∷ r) (take-remove_at n es)

  drop-remove_at : (n : ℕ) (es : List OpenEstimate) → drop n (remove_at n es) ≡ drop (suc n) es
  unfolding remove_at
  drop-remove_at zero [] = refl
  drop-remove_at zero (e ∷ es) = refl
  drop-remove_at (suc n) [] = refl
  drop-remove_at (suc n) (e ∷ es) = drop-remove_at n es

  pub has-take_next :
      (n : ℕ) (es : List OpenEstimate) (e : OpenEstimate) (id : Text)
      → get_elem? es n ≡ some e
      → has (map open_key (take (suc n) es)) id ≡ (has (map open_key (take n es)) id || e.id === id)
  unfolding has
  has-take_next n [] e id h = cc
  has-take_next zero (x ∷ es) e id h = ground (arith, h)
  has-take_next (suc n) (x ∷ es) e id h = ground (arith, has-take_next n es e id h)

  pub left_at_valid :
      (n : ℕ) (es : List OpenEstimate) (e : OpenEstimate)
      → get_elem? es n ≡ some e
      → is_valid e ≡ true
      → left_at (suc n) es ≡ left_at n es
  left_at_valid n [] e h v = cc
  left_at_valid zero (x ∷ es) e h v = ground (arith, h, v)
  left_at_valid (suc n) (x ∷ es) e h v = ground (arith, left_at_valid n es e h v)

  pub left_at_invalid :
      (n : ℕ) (es : List OpenEstimate) (e : OpenEstimate)
      → get_elem? es n ≡ some e
      → is_valid e ≡ false
      → left_at (suc n) es ≡ left_at n (remove_at n es)
  unfolding remove_at
  left_at_invalid n [] e h v = cc
  left_at_invalid zero (x ∷ es) e h v = ground (arith, h, v)
  left_at_invalid (suc n) (x ∷ es) e h v = ground (arith, left_at_invalid n es e h v)

  pub left_at_end : (es : List OpenEstimate) → left_at (length es) es ≡ filter is_valid es
  left_at_end [] = refl
  left_at_end (x ∷ es) = ground (arith, left_at_end es)

  pub get_elem?-below :
      (n : ℕ) (es : List OpenEstimate)
      → suc n ≤ length es
      → (e : OpenEstimate) × (get_elem? es n ≡ some e)
  get_elem?-below n [] h = absurd (omega (arith, h))
  get_elem?-below zero (x ∷ es) h = (x, refl)
  get_elem?-below (suc n) (x ∷ es) h = get_elem?-below n es (omega (arith, h))

  pub length-remove_at :
      (n : ℕ) (es : List OpenEstimate)
      → suc n ≤ length es
      → length es ≡ suc (length (remove_at n es))
  unfolding remove_at
  length-remove_at n [] h = absurd (omega (arith, h))
  length-remove_at zero (x ∷ es) h = refl
  length-remove_at (suc n) (x ∷ es) h = ap suc (length-remove_at n es (omega (arith, h)))
