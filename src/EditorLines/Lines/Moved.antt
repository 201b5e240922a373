-- ===== src/EditorLines/Lines/Moved.antt =====
-- Where `moveEstimateLine` (web/app.js) puts a line.
use new_a.Common.{
  suc, Bool, true, false, List, [], ◌∷◌, ◌++◌, some, length, get_elem?, count, ◌≡◌, refl, arith,
  find_index, remove_at, insert_at, length-append, ap,
}
use new_a.Number.{Arithmetic}
use new_a.EditorLines.{Line, up, down, move_between}
use new_a.EditorLines.Lines.{moved}

module _ {A : Type 0} where
  find_index-append :
      (p : A → Bool) (before : List A) (x : A) (after : List A)
      → count p before ≡ 0
      → p x ≡ true
      → find_index p (before ++ x ∷ after) ≡ some (length before)
  unfolding find_index
  find_index-append p [] x after h k = rw k refl
  find_index-append p (y ∷ before) x after h k = ground (arith, find_index-append p before x after)

  count-append :
      (p : A → Bool) (before : List A) (x : A)
      → count p before ≡ 0
      → p x ≡ false
      → count p (before ++ x ∷ []) ≡ 0
  count-append p [] x h k = rw k refl
  count-append p (y ∷ before) x h k = ground (arith, count-append p before x)

  get_elem?-append :
      (before : List A) (x : A) (after : List A)
      → get_elem? (before ++ x ∷ after) (length before) ≡ some x
  get_elem?-append [] x after = refl
  get_elem?-append (z ∷ before) x after = get_elem?-append before x after

  remove_at-append :
      (before : List A) (x : A) (after : List A)
      → remove_at (length before) (before ++ x ∷ after) ≡ before ++ after
  unfolding remove_at
  remove_at-append [] x after = refl
  remove_at-append (z ∷ before) x after = rw (remove_at-append before x after) refl

  insert_at-append :
      (before : List A) (x : A) (after : List A)
      → insert_at (length before) x (before ++ after) ≡ before ++ x ∷ after
  unfolding insert_at
  insert_at-append [] x after = refl
  insert_at-append (z ∷ before) x after = rw (insert_at-append before x after) refl

  -- The list split after its first part and one element more.
  shift :
      (before : List A) (y : A) (after : List A) → before ++ y ∷ after ≡ (before ++ y ∷ []) ++ after
  shift [] y after = refl
  shift (z ∷ before) y after = ap (λ r. z ∷ r) (shift before y after)

  length-shift : (before : List A) (y : A) → length (before ++ y ∷ []) ≡ suc (length before)
  length-shift before y = omega (arith, length-append before (y ∷ []))

  move_between_down :
      (before : List A) (x y : A) (after : List A)
      → move_between (length before) (suc (length before)) (before ++ x ∷ y ∷ after)
        ≡ before ++ y ∷ x ∷ after
  unfolding move_between
  move_between_down before x y after = cc (
    get_elem?-append before x (y ∷ after),
    remove_at-append before x (y ∷ after),
    shift before y after,
    shift before y (x ∷ after),
    length-shift before y,
    insert_at-append (before ++ y ∷ []) x after,
  )

  move_between_up :
      (before : List A) (x y : A) (after : List A)
      → move_between (suc (length before)) (length before) (before ++ x ∷ y ∷ after)
        ≡ before ++ y ∷ x ∷ after
  unfolding move_between
  move_between_up before x y after = cc (
    get_elem?-append (before ++ x ∷ []) y after,
    remove_at-append (before ++ x ∷ []) y after,
    shift before x (y ∷ after),
    shift before x after,
    length-shift before x,
    insert_at-append before y (x ∷ after),
  )

module _ (a : Arithmetic) where
  module _ (p : Line a → Bool) (before : List (Line a)) (x y : Line a) (after : List (Line a))
      (absent : count p before ≡ 0) where
    -- A line changes places with the one below it.
    pub moved_down :
        p x ≡ true → moved a p down (before ++ x ∷ y ∷ after) ≡ some (before ++ y ∷ x ∷ after)
    unfolding moved
    moved_down h =
        let len = length-append before (x ∷ y ∷ after) in
        ground (
          arith,
          find_index-append p before x (y ∷ after) absent h,
          move_between_down before x y after,
          len,
        )

    -- A line changes places with the one above it.
    pub moved_up :
        p x ≡ false
        → p y ≡ true
        → moved a p up (before ++ x ∷ y ∷ after) ≡ some (before ++ y ∷ x ∷ after)
    unfolding moved
    moved_up h k =
        let len = length-append before (x ∷ y ∷ after) in
        ground (
          arith,
          shift before x (y ∷ after),
          length-shift before x,
          find_index-append p (before ++ x ∷ []) y after (count-append p before x absent h) k,
          move_between_up before x y after,
        )
