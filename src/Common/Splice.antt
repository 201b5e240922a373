-- ===== src/Common/Splice.antt =====
-- Positions in an array, and the changes that JavaScript makes there.
pub mod Keyed
use Prim.Native.Nat.{ℕ, zero, suc, ◌+◌, ◌≤◌}
use mathlib.Core.Path.{◌≡◌, refl}
use mathlib.Core.Bool.{Bool, true, false}
use mathlib.Core.List.{List, [], ◌∷◌, ◌++◌}
use mathlib.Core.Option.{Option, none, some}
use mathlib.Core.Logic.{inl, inr}
use native.Mathlib.Omega.{arith}
use new_a.Common.Tests.{if◌then◌else◌, Option-cases}
use new_a.Common.Lists.{length, find}

module _ {ℓ} {A : Type ℓ} where
  -- `Array.prototype.findIndex`; `none` is -1.
  unfoldable pub find_index : (A → Bool) → List A → Option ℕ
  find_index p [] = none
  find_index p (x ∷ xs) =
      if p x then some 0 else elim (find_index p xs) [ some i ↦ some (suc i) | none ↦ none ]

  -- The loop from the last index to the first.
  unfoldable pub find_last_index : (A → Bool) → List A → Option ℕ
  find_last_index p [] = none
  find_last_index p (x ∷ xs) = elim (find_last_index p xs) [
    | some i ↦ some (suc i)
    | none ↦ if p x then some 0 else none
  ]

  -- `xs[i] = f(xs[i])`, where the index is in range.
  unfoldable pub modify_at : ℕ → (A → A) → List A → List A
  modify_at i f [] = []
  modify_at zero f (x ∷ xs) = f x ∷ xs
  modify_at (suc i) f (x ∷ xs) = x ∷ modify_at i f xs

  -- `xs.splice(i, 1)`.
  unfoldable pub remove_at : ℕ → List A → List A
  remove_at i [] = []
  remove_at zero (x ∷ xs) = xs
  remove_at (suc i) (x ∷ xs) = x ∷ remove_at i xs

  -- `xs.splice(i, 0, y)`.
  unfoldable pub insert_at : ℕ → A → List A → List A
  insert_at zero y xs = y ∷ xs
  insert_at (suc i) y [] = y ∷ []
  insert_at (suc i) y (x ∷ xs) = x ∷ insert_at i y xs

  -- Replace the first element that passes the test, or push the new one.
  unfoldable pub upsert : (A → Bool) → A → List A → List A
  unfolding find_index modify_at
  upsert p y xs = elim (find_index p xs) [ some i ↦ modify_at i (λ x. y) xs | none ↦ xs ++ y ∷ [] ]

  -- Remove the last element that passes the test.
  unfoldable pub remove_last : (A → Bool) → List A → List A
  unfolding find_last_index remove_at
  remove_last p xs = elim (find_last_index p xs) [ some i ↦ remove_at i xs | none ↦ xs ]

  -- Remove the first element that passes the test.
  unfoldable pub remove_first : (A → Bool) → List A → List A
  unfolding find_index remove_at
  remove_first p xs = elim (find_index p xs) [ some i ↦ remove_at i xs | none ↦ xs ]

  abbrev pub count : (A → Bool) → List A → ℕ
  count p [] = 0
  count p (x ∷ xs) = if p x then suc (count p xs) else count p xs

  pub upsert-cons :
      (p : A → Bool) (y x : A) (xs : List A)
      → upsert p y (x ∷ xs) ≡ (if p x then y ∷ xs else x ∷ upsert p y xs)
  unfolding upsert
  upsert-cons p y x xs = elim (Option-cases (find_index p xs)) [
    | inl h ↦ ground (arith, h)
    | inr (i, h) ↦ ground (arith, h)
  ]

  find_last_index_absent :
      (p : A → Bool) (xs : List A) → count p xs ≡ 0 → find_last_index p xs ≡ none
  unfolding find_last_index
  find_last_index_absent p [] h = refl
  find_last_index_absent p (x ∷ xs) h = ground (arith, find_last_index_absent p xs)

  pub remove_last_absent : (p : A → Bool) (xs : List A) → count p xs ≡ 0 → remove_last p xs ≡ xs
  unfolding remove_last
  remove_last_absent p xs h = ground (arith, find_last_index_absent p xs h)

  -- With at most one match the last one is the first one.
  pub remove_last-cons :
      (p : A → Bool) (x : A) (xs : List A)
      → count p (x ∷ xs) ≤ 1
      → remove_last p (x ∷ xs) ≡ (if p x then xs else x ∷ remove_last p xs)
  unfolding remove_last
  remove_last-cons p x xs h = elim (Option-cases (find_last_index p xs)) [
    | inl k ↦ ground (arith, k)
    | inr (i, k) ↦ ground (arith, k, find_last_index_absent p xs)
  ]
