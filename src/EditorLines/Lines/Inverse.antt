-- ===== src/EditorLines/Lines/Inverse.antt =====
-- An operation on the lines of an open estimate followed by another one (web/app.js).
use new_a.Common.{
  ℕ, Bool, true, false, List, [], ◌∷◌, ◌++◌, Option, none, some, length, get_elem?, find, count,
  ◌≡◌, refl, sym, ap, ◌∙◌, arith, find_index, find_last_index, remove_at, modify_at, Text, ◌===◌,
  ===_refl,
}
use new_a.Number.{Arithmetic}
use new_a.EditorLines.{Line, Position, OpenEstimate, Editor, Direction, up, down, user_position}
use new_a.EditorLines.Lines.{
  set_items, estimate_index, add_line_target_index, change_items, move_estimate_line, line_has_id,
  line_matches, upsert_user_position_in_estimate, remove_user_position_from_estimate,
  upsert_position, without_last, line_from_user_position, moved,
}
use new_a.EditorLines.Lines.Moved.{moved_down, moved_up}
use new_a.EditorLines.Lines.Back.{
  change_items_back, estimate_index-change_items, add_line_target_index-change_items,
  open_estimates-change_items,
}

module _ {A : Type 0} (p : A → Bool) where
  find_last_index_pushed :
      (xs : List A) (y : A) → p y ≡ true → find_last_index p (xs ++ y ∷ []) ≡ some (length xs)
  unfolding find_last_index
  find_last_index_pushed [] y h = rw h refl
  find_last_index_pushed (x ∷ xs) y h = rw (find_last_index_pushed xs y h) refl

  remove_at_pushed : (xs : List A) (y : A) → remove_at (length xs) (xs ++ y ∷ []) ≡ xs
  unfolding remove_at
  remove_at_pushed [] y = refl
  remove_at_pushed (x ∷ xs) y = ap (λ r. x ∷ r) (remove_at_pushed xs y)

  find_index_absent : (xs : List A) → count p xs ≡ 0 → find_index p xs ≡ none
  unfolding find_index
  find_index_absent [] h = refl
  find_index_absent (x ∷ xs) h = ground (arith, find_index_absent xs)

module _ (a : Arithmetic) where
  open a use {Num}

  move_estimate_line_lem :
      (id line : Text) (d : Direction) (s : Editor a)
      → move_estimate_line a id line d s
        ≡ change_items a (estimate_index a id s) (moved a (line_has_id a line) d) s
  unfolding move_estimate_line
  move_estimate_line_lem id line d s = refl

  -- Moving a line down and then up changes no line: where the estimate is open and its first line
  -- with the identifier stands directly above one with another identifier, the first move makes the
  -- two change places and changes nothing else in the open estimates, and the second move gives back
  -- the open estimates as they were.
  pub move_estimate_line-move_estimate_line :
      (id line : Text) (s : Editor a) (i : ℕ) (e : OpenEstimate a) (before after : List (Line a))
      (x y : Line a)
      → estimate_index a id s ≡ some i
      → get_elem? s.open_estimates i ≡ some e
      → e.items ≡ before ++ x ∷ y ∷ after
      → count (line_has_id a line) before ≡ 0
      → line_has_id a line x ≡ true
      → line_has_id a line y ≡ false
      → ((move_estimate_line a id line down s).open_estimates
          ≡ modify_at i (set_items a (before ++ y ∷ x ∷ after)) s.open_estimates)
        × ((move_estimate_line a id line up (move_estimate_line a id line down s)).open_estimates
            ≡ s.open_estimates)
  move_estimate_line-move_estimate_line id line s i e before after x y found at items absent h k =
      let p = line_has_id a line in
      let first = moved_down a p before x y after absent h in
      let second = moved_up a p before y x after absent k h in
      let f = moved a p down in
      let first' = ap f items ∙ first in
      let swapped = before ++ y ∷ x ∷ after in
      let down_only : (move_estimate_line a id line down s).open_estimates
          ≡ modify_at i (set_items a swapped) s.open_estimates =
        rw (move_estimate_line_lem id line down s, found)
          (open_estimates-change_items a i f s e swapped at first') in
      (
        down_only,
        rw
            (
              move_estimate_line_lem id line down s,
              found,
              move_estimate_line_lem id line up (change_items a (some i) f s),
              estimate_index-change_items a id i f s e swapped at first',
              found,
            )
            (change_items_back a i f (moved a p up) s e swapped at first'
              (second ∙ ap some (sym items))),
      )

  -- The line of a position that no line of the items has is pushed, and then found as the last one.
  upsert_position_absent :
      (position : Position a) (quantity : Num) (fresh : Text) (items : List (Line a))
      → count (line_matches a user_position position.id) items ≡ 0
      → upsert_position a position quantity fresh items
        ≡ items ++ line_from_user_position a position quantity none fresh ∷ []
  unfolding upsert_position
  upsert_position_absent position quantity fresh items h =
      ground (arith, find_index_absent (line_matches a user_position position.id) items h)

  line_matches_own :
      (position : Position a) (quantity : Num) (fresh : Text)
      → line_matches a user_position position.id
          (line_from_user_position a position quantity none fresh)
        ≡ true
  unfolding line_from_user_position
  line_matches_own position quantity fresh = ===_refl position.id

  without_last_pushed :
      (p : Line a → Bool) (items : List (Line a)) (y : Line a)
      → p y ≡ true
      → without_last a p (items ++ y ∷ []) ≡ some items
  unfolding without_last
  without_last_pushed p items y h =
      ground (arith, find_last_index_pushed p items y h, remove_at_pushed p items y)

  without_last-upsert_position :
      (position : Position a) (quantity : Num) (fresh : Text) (items : List (Line a))
      → count (line_matches a user_position position.id) items ≡ 0
      → without_last a
          (line_matches a user_position position.id)
          (upsert_position a position quantity fresh items)
        ≡ some items
  without_last-upsert_position position quantity fresh items h =
      rw (upsert_position_absent position quantity fresh items h)
        (without_last_pushed _ items _ (line_matches_own position quantity fresh))

  upsert_known :
      (position : Position a) (quantity : Num) (fresh : Text) (s : Editor a) (i : ℕ)
      → find (λ p. p.id === position.id) s.user_positions ≡ some position
      → add_line_target_index a s ≡ some i
      → upsert_user_position_in_estimate a position.id quantity fresh s
        ≡ change_items a
            (some i)
            (λ items. some (upsert_position a position quantity fresh items))
            s
  unfolding upsert_user_position_in_estimate
  upsert_known position quantity fresh s i h k = ground (arith, h, k)

  remove_user_position_from_estimate_lem :
      (id : Text) (s : Editor a)
      → remove_user_position_from_estimate a id s
        ≡ change_items a
            (add_line_target_index a s)
            (without_last a (line_matches a user_position id))
            s
  unfolding remove_user_position_from_estimate
  remove_user_position_from_estimate_lem id s = refl

  -- Adding a position of the user to the target estimate and removing it again changes no line:
  -- where the position is known, the target is open and no line of it stands for the position, the
  -- open estimates are as they were.
  pub remove_user_position_from_estimate-upsert_user_position_in_estimate :
      (position : Position a) (quantity : Num) (fresh : Text) (s : Editor a) (i : ℕ)
      (e : OpenEstimate a)
      → find (λ p. p.id === position.id) s.user_positions ≡ some position
      → add_line_target_index a s ≡ some i
      → get_elem? s.open_estimates i ≡ some e
      → count (line_matches a user_position position.id) e.items ≡ 0
      → (remove_user_position_from_estimate a position.id
          (upsert_user_position_in_estimate a position.id quantity fresh s)).open_estimates
        ≡ s.open_estimates
  remove_user_position_from_estimate-upsert_user_position_in_estimate position quantity fresh s i e
        known target at absent =
      let f : List (Line a) → Option (List (Line a)) =
        λ items. some (upsert_position a position quantity fresh items) in
      let pushed = upsert_position a position quantity fresh e.items in
      rw
        (
          upsert_known position quantity fresh s i known target,
          remove_user_position_from_estimate_lem position.id (change_items a (some i) f s),
          add_line_target_index-change_items a i f s e pushed at refl,
          target,
        )
        (change_items_back a i f (without_last a (line_matches a user_position position.id)) s e
          pushed at refl (without_last-upsert_position position quantity fresh e.items absent))
