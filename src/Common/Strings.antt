-- ===== src/Common/Strings.antt =====
-- A JavaScript string as the list of its UTF-16 code units; every literal of the program lies in
-- the basic plane, where a code point is one unit.
use Prim.Native.Nat.{ℕ}
use Prim.Native.Char.{code}
use Prim.Native.String.{String}
use mathlib.Core.Path.{◌≡◌, refl}
use mathlib.Core.Logic.{◌↔◌}
use mathlib.Core.Bool.{Bool, true, false, ◌&&◌}
use mathlib.Core.List.{List, [], ◌∷◌}
use native.Mathlib.Omega.{arith}
use mathlib.Core.Option.{Option, none, some}
use new_a.Common.Tests.{◌==◌, if◌then◌else◌}

abbrev pub Text : Type 0
Text = List ℕ

abbrev pub codes : String → Text
codes String.[] = []
codes (String.◌∷◌ c s) = code c ∷ codes s

-- `===` on strings.
infix 50 ◌===◌
unfoldable pub ◌===◌ : Text → Text → Bool
[] === [] = true
(x ∷ xs) === (y ∷ ys) = x == y && xs === ys
_ === _ = false

pub ===_iff : (a b : Text) → (a === b ≡ true) ↔ (a ≡ b)
unfolding ◌===◌
===_iff (x ∷ a) (y ∷ b) = ground (arith, ===_iff a b)
===_iff _ _ = ground arith

pub ===_refl : (a : Text) → a === a ≡ true
===_refl a = (===_iff a a).1 refl

-- `Boolean(text)`.
abbrev pub is_nonempty : Text → Bool
is_nonempty [] = false
is_nonempty (c ∷ cs) = true

-- `text.startsWith(prefix)`, and what follows the prefix if it does.
unfoldable pub drop_prefix : Text → Text → Option Text
drop_prefix [] s = some s
drop_prefix (p ∷ ps) [] = none
drop_prefix (p ∷ ps) (c ∷ cs) = if p == c then drop_prefix ps cs else none

unfoldable pub starts_with : Text → Text → Bool
starts_with [] s = true
starts_with (p ∷ ps) [] = false
starts_with (p ∷ ps) (c ∷ cs) = p == c && starts_with ps cs

-- `text.endsWith(suffix)`, and what stands in front of the suffix if it does.
unfoldable pub drop_suffix : Text → Text → Option Text
unfolding ◌===◌
drop_suffix suffix [] = if suffix === [] then some [] else none
drop_suffix suffix (c ∷ cs) =
    if (c ∷ cs) === suffix
    then some []
    else elim (drop_suffix suffix cs) [ none ↦ none | some s ↦ some (c ∷ s) ]
