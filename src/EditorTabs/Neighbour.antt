-- ===== src/EditorTabs/Neighbour.antt =====
-- What closing an estimate leaves, and the tab that it shows (`closeEstimateFromEditor` of web/app.js).
use new_a.Common.{
  ℕ, suc, ◌+◌, ◌-◌, true, false, List, [], ◌∷◌, ◌++◌, some, length, ltb, get_elem?, if◌then◌else◌,
  Text, ◌===◌, ===_refl, find_index, remove_at, has, ◌≡◌, refl, ap, arith, append-nil,
}
use new_a.EditorTabs.{
  buffer_tab, smaller, next_tab, close_estimate, finish_close, finish_if, start_close,
}

-- The first estimate behind the closed one, or else the last one before it, or else the buffer.
abbrev last_or_buffer : List Text → Text
last_or_buffer [] = buffer_tab
last_or_buffer (x ∷ []) = x
last_or_buffer (x ∷ y ∷ ys) = last_or_buffer (y ∷ ys)

abbrev pub neighbour : (before after : List Text) → Text
neighbour before (x ∷ after) = x
neighbour before [] = last_or_buffer before

find_index-append :
    (before after : List Text) (id : Text)
    → has before id ≡ false
    → find_index (λ x. x === id) (before ++ id ∷ after) ≡ some (length before)
unfolding find_index has
find_index-append [] after id h = ground (arith, ===_refl id)
find_index-append (x ∷ before) after id h = ground (arith, h, find_index-append before after id)

remove_at-append :
    (before after : List Text) (id : Text)
    → remove_at (length before) (before ++ id ∷ after) ≡ before ++ after
unfolding remove_at
remove_at-append [] after id = refl
remove_at-append (x ∷ before) after id = ap (λ r. x ∷ r) (remove_at-append before after id)

length-append : (xs ys : List Text) → length (xs ++ ys) ≡ length xs + length ys
length-append [] ys = ground arith
length-append (x ∷ xs) ys = ground (arith, length-append xs ys)

get_elem?-append :
    (before after : List Text) (x : Text) → get_elem? (before ++ x ∷ after) (length before) ≡ some x
get_elem?-append [] after x = refl
get_elem?-append (y ∷ before) after x = get_elem?-append before after x

get_elem?-last :
    (x : Text) (xs : List Text) → get_elem? (x ∷ xs) (length xs) ≡ some (last_or_buffer (x ∷ xs))
get_elem?-last x [] = refl
get_elem?-last x (y ∷ ys) = get_elem?-last y ys

some_left : (m n : ℕ) → ltb 0 (m + suc n) ≡ true
some_left m n = ground arith

in_place : (m n : ℕ) → smaller m (m + suc n - 1) ≡ m
in_place m n = ground arith

one_less : (m : ℕ) → smaller (suc m) (suc m - 1) ≡ m
one_less m = ground arith

some_last :
    (x : Text) (xs : List Text)
    → (if ltb 0 (suc (length xs)) then get_elem? (x ∷ xs) (length xs) else some buffer_tab)
      ≡ some (last_or_buffer (x ∷ xs))
some_last x xs = ground (arith, get_elem?-last x xs)

next_tab-neighbour :
    (before after : List Text)
    → next_tab (length before) (before ++ after) ≡ some (neighbour before after)
unfolding next_tab
next_tab-neighbour before (x ∷ after) =
    rw
      (
        length-append before (x ∷ after),
        some_left (length before) (length after),
        in_place (length before) (length after),
      )
      (get_elem?-append before after x)
next_tab-neighbour [] [] = refl
next_tab-neighbour (x ∷ before) [] =
    rw (append-nil before, one_less (length before)) (some_last x before)

-- Closing an estimate while no other handler runs: of distinct open estimates it removes the closed
-- one and keeps the others in their order, and where its tab was shown, the tab is the next one's, or
-- the last one's where there is none behind it, or the buffer where none is left. Where its draft
-- could not be parsed or saved, nothing changes.
pub close_estimate-neighbour :
    (before after : List Text) (id tab : Text)
    → has before id ≡ false
    → (close_estimate true id (record { open_ids = before ++ id ∷ after; editor_tab = tab })
        ≡ record {
          open_ids = before ++ after;
          editor_tab = if tab === id then neighbour before after else tab;
        })
      × (close_estimate false id (record { open_ids = before ++ id ∷ after; editor_tab = tab })
          ≡ record { open_ids = before ++ id ∷ after; editor_tab = tab })
unfolding close_estimate start_close finish_if finish_close
close_estimate-neighbour before after id tab h = (
  rw
      (
        find_index-append before after id h,
        remove_at-append before after id,
        next_tab-neighbour before after,
      )
      refl,
  rw (find_index-append before after id h) refl,
)
