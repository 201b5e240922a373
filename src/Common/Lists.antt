-- ===== src/Common/Lists.antt =====
-- Lists measured and searched by native numbers and Boolean tests, under the library's names.
use Prim.Native.Nat.{ℕ, zero, suc, ◌+◌}
use mathlib.Core.Path.{◌≡◌, refl, ap}
use mathlib.Core.Bool.{Bool, true, false}
use mathlib.Core.List.{List, [], ◌∷◌, ◌++◌}
use mathlib.Core.Option.{Option, none, some}
use native.Mathlib.Omega.{arith}
use Prim.Native.Nat.{◌≤◌}
use new_a.Common.Tests.{if◌then◌else◌}

module _ {ℓ} {A : Type ℓ} where
  abbrev pub length : List A → ℕ
  length [] = 0
  length (x ∷ xs) = suc (length xs)

  abbrev pub get_elem? : List A → ℕ → Option A
  get_elem? [] i = none
  get_elem? (x ∷ xs) zero = some x
  get_elem? (x ∷ xs) (suc i) = get_elem? xs i

  abbrev pub get_or : List A → ℕ → A → A
  get_or [] i d = d
  get_or (x ∷ xs) zero d = x
  get_or (x ∷ xs) (suc i) d = get_or xs i d

  -- `Array.prototype.filter`.
  abbrev pub filter : (A → Bool) → List A → List A
  filter p [] = []
  filter p (x ∷ xs) = if p x then x ∷ filter p xs else filter p xs

  -- `Array.prototype.find`.
  abbrev pub find : (A → Bool) → List A → Option A
  find p [] = none
  find p (x ∷ xs) = if p x then some x else find p xs

  abbrev pub take : ℕ → List A → List A
  take zero xs = []
  take (suc n) [] = []
  take (suc n) (x ∷ xs) = x ∷ take n xs

  abbrev pub drop : ℕ → List A → List A
  drop zero xs = xs
  drop (suc n) [] = []
  drop (suc n) (x ∷ xs) = drop n xs

  -- `Array.prototype.every`.
  abbrev pub every : (A → Bool) → List A → Bool
  every p [] = true
  every p (x ∷ xs) = if p x then every p xs else false

  abbrev pub take_while : (A → Bool) → List A → List A
  take_while p [] = []
  take_while p (x ∷ xs) = if p x then x ∷ take_while p xs else []

  abbrev pub drop_while : (A → Bool) → List A → List A
  drop_while p [] = []
  drop_while p (x ∷ xs) = if p x then drop_while p xs else x ∷ xs

  pub length-append : (xs ys : List A) → length (xs ++ ys) ≡ length xs + length ys
  length-append [] ys = omega arith
  length-append (x ∷ xs) ys = omega (arith, length-append xs ys)

module _ {ℓ} {A : Type ℓ} (p : A → Bool) where
  abbrev pub AllTrue : List A → Type 0
  AllTrue [] = Unit
  AllTrue (x ∷ xs) = (p x ≡ true) × AllTrue xs

  pub length-drop_while-le : (xs : List A) → length (drop_while p xs) ≤ length xs
  length-drop_while-le [] = omega arith
  length-drop_while-le (x ∷ xs) = ground (arith, length-drop_while-le xs)

  -- A run of elements that pass the test is taken whole where the rest begins with none.
  abbrev pub StopsAt : List A → Type 0
  StopsAt [] = Unit
  StopsAt (x ∷ xs) = p x ≡ false

  pub take_while-append : (xs ys : List A) → AllTrue xs → StopsAt ys → take_while p (xs ++ ys) ≡ xs
  take_while-append [] [] h k = refl
  take_while-append [] (y ∷ ys) h k = rw k
  take_while-append (x ∷ xs) ys h k = rw (h.0) (ap (λ r. x ∷ r) (take_while-append xs ys h.1 k))

  pub drop_while-append : (xs ys : List A) → AllTrue xs → StopsAt ys → drop_while p (xs ++ ys) ≡ ys
  drop_while-append [] [] h k = refl
  drop_while-append [] (y ∷ ys) h k = rw k
  drop_while-append (x ∷ xs) ys h k = rw (h.0) (drop_while-append xs ys h.1 k)

  pub every-AllTrue : (xs : List A) → AllTrue xs → every p xs ≡ true
  every-AllTrue [] h = refl
  every-AllTrue (x ∷ xs) h = rw (h.0) (every-AllTrue xs h.1)
