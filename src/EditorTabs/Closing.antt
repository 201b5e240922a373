-- ===== src/EditorTabs/Closing.antt =====
-- Closing an estimate while no other handler runs (web/app.js).
use new_a.Common.{
  ℕ, zero, suc, ◌-◌, ◌<◌, ltb, Bool, true, false, ◌||◌, List, [], ◌∷◌, Option, none, some, length,
  get_elem?, if◌then◌else◌, Text, ◌===◌, ===_iff, find_index, remove_at, has, ◌≡◌, refl, ap, ◌∙◌,
  arith, ◌⊎◌, inl, inr, Option-cases, Bool-cases,
}
use new_a.EditorTabs.{
  Tabs, buffer_tab, smaller, or_kept, next_tab, start_close, finish_close, finish_if,
  close_estimate,
}

-- The tab shown is the buffer or an open estimate.
abbrev pub IsShown : Tabs → Type 0
IsShown s = (s.editor_tab ≡ buffer_tab) ⊎ (has s.open_ids s.editor_tab ≡ true)

===_swap : (a b : Text) → a === b ≡ false → b === a ≡ false
===_swap a b h = ground (arith, h, ===_iff a b, ===_iff b a)

get_elem?-find_index :
    (id : Text) (xs : List Text) (i : ℕ)
    → find_index (λ x. x === id) xs ≡ some i
    → get_elem? xs i ≡ some id
unfolding find_index
get_elem?-find_index id [] i h = cc
get_elem?-find_index id (x ∷ xs) zero h = elim (Option-cases (find_index (λ y. y === id) xs)) [
  | inl k ↦ ground (arith, h, k, ===_iff x id)
  | inr (j, k) ↦ ground (arith, h, k, ===_iff x id)
]
get_elem?-find_index id (x ∷ xs) (suc i) h = elim (Option-cases (find_index (λ y. y === id) xs)) [
  | inl k ↦ ground (arith, h, k)
  | inr (j, k) ↦ ground (arith, h, k, get_elem?-find_index id xs i)
]

has-remove_at :
    (xs : List Text) (i : ℕ) (x y : Text)
    → get_elem? xs i ≡ some x
    → x === y ≡ false
    → has (remove_at i xs) y ≡ has xs y
unfolding has remove_at
has-remove_at [] i x y h k = refl
has-remove_at (z ∷ xs) zero x y h k = ground (arith, h, k)
has-remove_at (z ∷ xs) (suc i) x y h k = ap (λ b. z === y || b) (has-remove_at xs i x y h k)

has-get_elem? : (xs : List Text) (i : ℕ) (x : Text) → get_elem? xs i ≡ some x → has xs x ≡ true
unfolding has
has-get_elem? [] i x h = cc
has-get_elem? (z ∷ xs) zero x h = ground (arith, h, ===_iff z x)
has-get_elem? (z ∷ xs) (suc i) x h = ground (arith, has-get_elem? xs i x h)

get_elem?-some : (xs : List Text) (i : ℕ) → i < length xs → (x : Text) × (get_elem? xs i ≡ some x)
get_elem?-some [] i h = absurd (omega (arith, h))
get_elem?-some (x ∷ xs) zero h = (x, refl)
get_elem?-some (x ∷ xs) (suc i) h = get_elem?-some xs i (omega (arith, h))

in_range :
    (i : ℕ) (xs : List Text) → ltb 0 (length xs) ≡ true → smaller i (length xs - 1) < length xs
in_range i xs h = ground (arith, h)

next_tab_shown :
    (i : ℕ) (xs : List Text)
    → (next_tab i xs ≡ some buffer_tab)
      ⊎ ((x : Text) × (next_tab i xs ≡ some x) × (has xs x ≡ true))
unfolding next_tab
next_tab_shown i xs = elim (Bool-cases (ltb 0 (length xs))) [
  | inr empty ↦ inl (rw empty refl)
  | inl some_left ↦
      let (x, h) = get_elem?-some xs (smaller i (length xs - 1)) (in_range i xs some_left) in
      inr (x, rw some_left h, has-get_elem? xs _ x h)
]

finish_close_lem :
    (i : ℕ) (id : Text) (s : Tabs)
    → finish_close i id s ≡ record {
      open_ids = remove_at i s.open_ids;
      editor_tab =
          if s.editor_tab === id
          then or_kept (next_tab i (remove_at i s.open_ids)) s.editor_tab
          else s.editor_tab;
    }
unfolding finish_close
finish_close_lem i id s = refl

start_close_found :
    (id : Text) (s : Tabs) (i : ℕ) → start_close id s ≡ some i → get_elem? s.open_ids i ≡ some id
unfolding start_close
start_close_found id s i h = get_elem?-find_index id s.open_ids i h

finish_if-some : (id : Text) (i : ℕ) (s : Tabs) → finish_if true id (some i) s ≡ finish_close i id s
unfolding finish_if
finish_if-some id i s = refl

finish_if_refused : (id : Text) (i : ℕ) (s : Tabs) → finish_if false id (some i) s ≡ s
unfolding finish_if
finish_if_refused id i s = refl

finish_if-none : (synced : Bool) (id : Text) (s : Tabs) → finish_if synced id none s ≡ s
unfolding finish_if
finish_if-none synced id s = refl

close_estimate_lem :
    (synced : Bool) (id : Text) (s : Tabs)
    → close_estimate synced id s ≡ finish_if synced id (start_close id s) s
unfolding close_estimate
close_estimate_lem synced id s = refl

finish_if_cases :
    (synced : Bool) (id : Text) (s : Tabs) (o : Option ℕ)
    → (finish_if synced id o s ≡ s)
      ⊎ ((i : ℕ) × (o ≡ some i) × (finish_if synced id o s ≡ finish_close i id s))
finish_if_cases synced id s none = inl (finish_if-none synced id s)
finish_if_cases false id s (some i) = inl (finish_if_refused id i s)
finish_if_cases true id s (some i) = inr (i, refl, finish_if-some id i s)

still_shown :
    (i : ℕ) (id : Text) (s : Tabs)
    → get_elem? s.open_ids i ≡ some id
    → s.editor_tab === id ≡ false
    → IsShown s
    → (s.editor_tab ≡ buffer_tab) ⊎ (has (remove_at i s.open_ids) s.editor_tab ≡ true)
still_shown i id s at h (inl buffer) = inl buffer
still_shown i id s at h (inr there) =
    inr (has-remove_at s.open_ids i id s.editor_tab at (===_swap s.editor_tab id h) ∙ there)

finish_close-IsShown :
    (i : ℕ) (id : Text) (s : Tabs)
    → get_elem? s.open_ids i ≡ some id
    → IsShown s
    → IsShown (finish_close i id s)
finish_close-IsShown i id s at shown = elim (Bool-cases (s.editor_tab === id)) [
  | inl current ↦ elim (next_tab_shown i (remove_at i s.open_ids)) [
    | inl buffer ↦ rw (finish_close_lem i id s, current, buffer) (inl refl)
    | inr (x, next, there) ↦ rw (finish_close_lem i id s, current, next) (inr there)
  ]
  | inr elsewhere ↦ rw (finish_close_lem i id s, elsewhere) (still_shown i id s at elsewhere shown)
]

-- Closing an estimate while no other handler runs closes no other one and leaves a tab that is there:
-- where the tab shown is the buffer or an open estimate, so is the tab afterwards, and each other
-- identifier is among the open ones exactly if it was.
close_estimate-IsShown :
    (synced : Bool) (id : Text) (s : Tabs)
    → IsShown s
    → IsShown (close_estimate synced id s)
      × ((y : Text)
          → id === y ≡ false
          → has (close_estimate synced id s).open_ids y ≡ has s.open_ids y)
close_estimate-IsShown synced id s shown = elim (finish_if_cases synced id s (start_close id s)) [
  | inl kept ↦ rw (close_estimate_lem synced id s, kept) (shown, λ y h. refl)
  | inr (i, found, closed) ↦
      let at = start_close_found id s i found in
      rw (close_estimate_lem synced id s, closed)
        (
          finish_close-IsShown i id s at shown,
          λ y h. rw (finish_close_lem i id s) (has-remove_at s.open_ids i id y at h),
        )
]
