-- ===== src/EditorLines/Lines/Back.antt =====
-- Changes of the lines of one open estimate in web/app.js, and a change followed by its inverse.
use new_a.Common.{
  ℕ, zero, suc, Bool, List, [], ◌∷◌, Option, some, get_elem?, ◌≡◌, refl, ap, ◌∙◌, arith, find_index,
  modify_at, Text, ◌===◌,
}
use new_a.Number.{Arithmetic}
use new_a.EditorLines.{Line, OpenEstimate, Editor}
use new_a.EditorLines.Lines.{
  estimate_index, add_line_target_index, only_open, set_items, put_items, change_items,
}

module _ {A : Type 0} where
  get_elem?-modify_at :
      (i : ℕ) (f : A → A) (xs : List A) (x : A)
      → get_elem? xs i ≡ some x
      → get_elem? (modify_at i f xs) i ≡ some (f x)
  unfolding modify_at
  get_elem?-modify_at i f [] x h = ground (arith, h)
  get_elem?-modify_at zero f (y ∷ xs) x h = ground (arith, h)
  get_elem?-modify_at (suc i) f (y ∷ xs) x h = get_elem?-modify_at i f xs x h

  modify_at-modify_at :
      (i : ℕ) (f g : A → A) (xs : List A) (x : A)
      → get_elem? xs i ≡ some x
      → g (f x) ≡ x
      → modify_at i g (modify_at i f xs) ≡ xs
  unfolding modify_at
  modify_at-modify_at i f g [] x h k = refl
  modify_at-modify_at zero f g (y ∷ xs) x h k = ground (arith, h, k)
  modify_at-modify_at (suc i) f g (y ∷ xs) x h k =
      ap (λ r. y ∷ r) (modify_at-modify_at i f g xs x h k)

  find_index-modify_at :
      (p : A → Bool) (i : ℕ) (f : A → A) (xs : List A)
      → ((x : A) → p (f x) ≡ p x)
      → find_index p (modify_at i f xs) ≡ find_index p xs
  unfolding modify_at find_index
  find_index-modify_at p i f [] h = refl
  find_index-modify_at p zero f (y ∷ xs) h = rw (h y) refl
  find_index-modify_at p (suc i) f (y ∷ xs) h = rw (find_index-modify_at p i f xs h) refl

module _ (a : Arithmetic) where
  -- The estimates after a change that does not return early.
  change_items-some :
      (i : ℕ) (f : List (Line a) → Option (List (Line a))) (s : Editor a) (e : OpenEstimate a)
      (items : List (Line a))
      → get_elem? s.open_estimates i ≡ some e
      → f e.items ≡ some items
      → change_items a (some i) f s ≡ put_items a i e.id items s
  unfolding change_items
  change_items-some i f s e items h k = ground (arith, h, k)

  open_estimates-put_items :
      (i : ℕ) (id : Text) (items : List (Line a)) (s : Editor a)
      → (put_items a i id items s).open_estimates ≡ modify_at i (set_items a items) s.open_estimates
  unfolding put_items
  open_estimates-put_items i id items s = refl

  pub open_estimates-change_items :
      (i : ℕ) (f : List (Line a) → Option (List (Line a))) (s : Editor a) (e : OpenEstimate a)
      (items : List (Line a))
      → get_elem? s.open_estimates i ≡ some e
      → f e.items ≡ some items
      → (change_items a (some i) f s).open_estimates
        ≡ modify_at i (set_items a items) s.open_estimates
  open_estimates-change_items i f s e items h k =
      rw (change_items-some i f s e items h k) (open_estimates-put_items i e.id items s)

  -- A change and its inverse leave the estimates as they were.
  pub change_items_back :
      (i : ℕ) (f g : List (Line a) → Option (List (Line a))) (s : Editor a) (e : OpenEstimate a)
      (items : List (Line a))
      → get_elem? s.open_estimates i ≡ some e
      → f e.items ≡ some items
      → g items ≡ some e.items
      → (change_items a (some i) g (change_items a (some i) f s)).open_estimates ≡ s.open_estimates
  change_items_back i f g s e items h k l =
      let first = open_estimates-change_items i f s e items h k in
      let found = get_elem?-modify_at i (set_items a items) s.open_estimates e h in
      open_estimates-change_items i g (change_items a (some i) f s) (set_items a items e) e.items
        (ap (λ es. get_elem? es i) first ∙ found) l
      ∙ ap (modify_at i (set_items a e.items)) first
      ∙ modify_at-modify_at i (set_items a items) (set_items a e.items) s.open_estimates e h refl

  pub estimate_index-change_items :
      (id : Text) (i : ℕ) (f : List (Line a) → Option (List (Line a))) (s : Editor a)
      (e : OpenEstimate a) (items : List (Line a))
      → get_elem? s.open_estimates i ≡ some e
      → f e.items ≡ some items
      → estimate_index a id (change_items a (some i) f s) ≡ estimate_index a id s
  unfolding estimate_index
  estimate_index-change_items id i f s e items h k =
      ap (find_index (λ e'. e'.id === id)) (open_estimates-change_items i f s e items h k)
      ∙ find_index-modify_at (λ e'. e'.id === id) i (set_items a items) s.open_estimates (λ x. refl)

  only_open-modify_at :
      (i : ℕ) (f : OpenEstimate a → OpenEstimate a) (es : List (OpenEstimate a))
      → only_open a (modify_at i f es) ≡ only_open a es
  unfolding modify_at
  only_open-modify_at i f [] = refl
  only_open-modify_at zero f (e ∷ []) = refl
  only_open-modify_at zero f (e ∷ d ∷ es) = refl
  only_open-modify_at (suc i) f (e ∷ []) = refl
  only_open-modify_at (suc zero) f (e ∷ d ∷ es) = refl
  only_open-modify_at (suc (suc i)) f (e ∷ d ∷ es) = refl

  target_kept :
      (i : ℕ) (id : Text) (items : List (Line a)) (s : Editor a)
      → add_line_target_index a (put_items a i id items s) ≡ add_line_target_index a s
  unfolding add_line_target_index put_items
  target_kept i id items s =
      rw
        (
          only_open-modify_at i (set_items a items) s.open_estimates,
          find_index-modify_at (λ e. e.id === s.add_line_target) i (set_items a items)
              s.open_estimates (λ x. refl),
        )
        refl

  pub add_line_target_index-change_items :
      (i : ℕ) (f : List (Line a) → Option (List (Line a))) (s : Editor a) (e : OpenEstimate a)
      (items : List (Line a))
      → get_elem? s.open_estimates i ≡ some e
      → f e.items ≡ some items
      → add_line_target_index a (change_items a (some i) f s) ≡ add_line_target_index a s
  add_line_target_index-change_items i f s e items h k =
      rw (change_items-some i f s e items h k) (target_kept i e.id items s)
