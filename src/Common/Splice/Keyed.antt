-- ===== src/Common/Splice/Keyed.antt =====
-- Arrays that hold at most one element for a test: what replacing or removing it does to the element
-- that this and other tests find.
use new_a.Common.Lists.{find}
use new_a.Common.Splice.{
  upsert, remove_last, count, upsert-cons, remove_last_absent, remove_last-cons,
}
use Prim.Native.Nat.{◌≤◌}
use mathlib.Core.Path.{◌≡◌, refl}
use mathlib.Core.Bool.{Bool, true, false}
use mathlib.Core.List.{List, [], ◌∷◌}
use mathlib.Core.Option.{none, some}
use native.Mathlib.Omega.{arith}

module _ {ℓ} {A : Type ℓ} (p : A → Bool) where
  upsert-nil : (y : A) → upsert p y [] ≡ y ∷ []
  unfolding upsert
  upsert-nil y = refl

  pub find-upsert : (y : A) (xs : List A) → p y ≡ true → find p (upsert p y xs) ≡ some y
  find-upsert y [] h = ground (arith, upsert-nil y)
  find-upsert y (x ∷ xs) h = ground (arith, upsert-cons p y x xs, find-upsert y xs h)

  pub count-upsert :
      (y : A) (xs : List A) → p y ≡ true → count p xs ≤ 1 → count p (upsert p y xs) ≡ 1
  count-upsert y [] h k = ground (arith, upsert-nil y)
  count-upsert y (x ∷ xs) h k = ground (arith, upsert-cons p y x xs, count-upsert y xs h)

  pub find_absent : (xs : List A) → count p xs ≡ 0 → find p xs ≡ none
  find_absent [] h = refl
  find_absent (x ∷ xs) h = ground (arith, find_absent xs)

  pub count-remove_last : (xs : List A) → count p xs ≤ 1 → count p (remove_last p xs) ≡ 0
  count-remove_last [] h = ground (arith, remove_last_absent p [] refl)
  count-remove_last (x ∷ xs) h = ground (arith, remove_last-cons p x xs h, count-remove_last xs)

  -- A test that no element passes together with `p`.
  module _ (q : A → Bool) (disjoint : (x : A) → p x ≡ true → q x ≡ false) where
    pub find-upsert_other : (y : A) (xs : List A) → p y ≡ true → find q (upsert p y xs) ≡ find q xs
    find-upsert_other y [] h = ground (arith, upsert-nil y, disjoint y h)
    find-upsert_other y (x ∷ xs) h =
        ground (arith, upsert-cons p y x xs, disjoint y h, disjoint x, find-upsert_other y xs h)

    pub count-upsert_other :
        (y : A) (xs : List A) → p y ≡ true → count q (upsert p y xs) ≡ count q xs
    count-upsert_other y [] h = ground (arith, upsert-nil y, disjoint y h)
    count-upsert_other y (x ∷ xs) h =
        ground (arith, upsert-cons p y x xs, disjoint y h, disjoint x, count-upsert_other y xs h)

    pub find-remove_last_other :
        (xs : List A) → count p xs ≤ 1 → find q (remove_last p xs) ≡ find q xs
    find-remove_last_other [] h = ground (arith, remove_last_absent p [] refl)
    find-remove_last_other (x ∷ xs) h =
        ground (arith, remove_last-cons p x xs h, disjoint x, find-remove_last_other xs)

    pub count-remove_last_other :
        (xs : List A) → count p xs ≤ 1 → count q (remove_last p xs) ≡ count q xs
    count-remove_last_other [] h = ground (arith, remove_last_absent p [] refl)
    count-remove_last_other (x ∷ xs) h =
        ground (arith, remove_last-cons p x xs h, disjoint x, count-remove_last_other xs)
