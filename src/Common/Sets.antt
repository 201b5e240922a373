-- ===== src/Common/Sets.antt =====
-- A JavaScript `Set` of strings as the list of its members in insertion order.
use mathlib.Core.Path.{◌≡◌, refl}
use mathlib.Core.Bool.{Bool, true, false, not, ◌&&◌, ◌||◌}
use mathlib.Core.List.{List, [], ◌∷◌, ◌++◌}
use native.Mathlib.Omega.{arith}
use new_a.Common.Tests.{if◌then◌else◌}
use new_a.Common.Strings.{Text, ◌===◌, ===_iff}

unfoldable pub has : List Text → Text → Bool
has [] y = false
has (x ∷ xs) y = x === y || has xs y

unfoldable pub no_repeats : List Text → Bool
unfolding has
no_repeats [] = true
no_repeats (x ∷ xs) = not (has xs x) && no_repeats xs

unfoldable pub add : Text → List Text → List Text
unfolding has
add x s = if has s x then s else s ++ (x ∷ [])

unfoldable pub delete : Text → List Text → List Text
delete x [] = []
delete x (y ∷ s) = if x === y then delete x s else y ∷ delete x s

-- `xs.forEach((x) => s.add(x))`.
unfoldable pub add_all : List Text → List Text → List Text
unfolding add
add_all [] s = s
add_all (x ∷ xs) s = add_all xs (add x s)

unfoldable pub delete_all : List Text → List Text → List Text
unfolding delete
delete_all [] s = s
delete_all (x ∷ xs) s = delete_all xs (delete x s)

pub has-nil : (y : Text) → has [] y ≡ false
unfolding has
has-nil y = refl

has-append : (s t : List Text) (y : Text) → has (s ++ t) y ≡ (has s y || has t y)
unfolding has
has-append [] t y = refl
has-append (x ∷ s) t y = ground (arith, has-append s t y)

pub has-add : (x : Text) (s : List Text) (y : Text) → has (add x s) y ≡ (x === y || has s y)
unfolding add
has-add x s y = ground (arith, has-append s (x ∷ []) y, ===_iff x y)

pub has-delete :
    (x : Text) (s : List Text) (y : Text) → has (delete x s) y ≡ (not (x === y) && has s y)
unfolding has delete
has-delete x [] y = ground arith
has-delete x (z ∷ s) y = ground (arith, has-delete x s y, ===_iff x y, ===_iff x z, ===_iff z y)

pub has-add_all : (xs s : List Text) (y : Text) → has (add_all xs s) y ≡ (has xs y || has s y)
unfolding has add_all
has-add_all [] s y = refl
has-add_all (x ∷ xs) s y = ground (arith, has-add_all xs (add x s) y, has-add x s y)

pub has-delete_all :
    (xs s : List Text) (y : Text) → has (delete_all xs s) y ≡ (not (has xs y) && has s y)
unfolding has delete_all
has-delete_all [] s y = ground arith
has-delete_all (x ∷ xs) s y = ground (arith, has-delete_all xs (delete x s) y, has-delete x s y)
