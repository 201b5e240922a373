-- ===== src/ProjectTree/Keys.antt =====
-- Lists whose members have distinct keys: what `find` by key and `map` of the keys say of each
-- other.
use new_a.Common.{
  Bool, true, false, List, [], ◌∷◌, map, some, ◌≡◌, refl, arith, filter, Text, ◌===◌, ===_iff, has,
  Bool-cases, inl, inr,
}
use new_a.ProjectTree.{find_by}

module _ {ℓ} {A : Type ℓ} (key : A → Text) where
  abbrev pub HasUniqueKeys : List A → Type 0
  HasUniqueKeys [] = Unit
  HasUniqueKeys (x ∷ xs) = (has (map key xs) (key x) ≡ false) × HasUniqueKeys xs

  pub key-find_by : (id : Text) (xs : List A) {x : A} → find_by key id xs ≡ some x → key x ≡ id
  key-find_by id [] h = cc
  key-find_by id (y ∷ ys) {x} h = ground (arith, ===_iff (key y) id, key-find_by id ys {x = x})

  pub has-filter_absent :
      (p : A → Bool) (xs : List A) (id : Text)
      → has (map key xs) id ≡ false
      → has (map key (filter p xs)) id ≡ false
  unfolding has
  has-filter_absent p [] id h = refl
  has-filter_absent p (x ∷ xs) id h = ground (arith, has-filter_absent p xs id)

  -- Of a member the keys of a filtered list hold the key exactly when the filter keeps the member.
  pub has-filter :
      (p : A → Bool) (xs : List A) (id : Text) {x : A}
      → HasUniqueKeys xs
      → find_by key id xs ≡ some x
      → has (map key (filter p xs)) id ≡ p x
  unfolding has
  has-filter p [] id u h = cc
  has-filter p (y ∷ ys) id {x} u h =
      ground (arith, ===_iff (key y) id, has-filter_absent p ys id, has-filter p ys id {x = x} u.1)

  pub has-map-find_by :
      (xs : List A) (id : Text) {x : A} → find_by key id xs ≡ some x → has (map key xs) id ≡ true
  unfolding has
  has-map-find_by [] id h = cc
  has-map-find_by (y ∷ ys) id {x} h = ground (arith, has-map-find_by ys id {x = x})

  pub find_by_of_has :
      (xs : List A) (id : Text)
      → has (map key xs) id ≡ true
      → (x : A) × (find_by key id xs ≡ some x)
  unfolding has
  find_by_of_has [] id h = cc
  find_by_of_has (y ∷ ys) id h = elim (Bool-cases (key y === id)) [
    | inl here ↦ (y, rw here)
    | inr later ↦ rw later (find_by_of_has ys id (ground arith))
  ]
