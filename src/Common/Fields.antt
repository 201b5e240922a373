-- ===== src/Common/Fields.antt =====
-- `text.split(b)` and `fields.join(b)` for a delimiter of one character.
use Prim.Native.Nat.{ℕ, ◌+◌, ◌<◌}
use mathlib.Core.Path.{◌≡◌, refl, ap, ◌∙◌}
use mathlib.Core.Bool.{not}
use mathlib.Core.List.{List, [], ◌∷◌, ◌++◌}
use native.Mathlib.Omega.{arith}
use new_a.Common.Tests.{◌==◌, if◌then◌else◌}
use new_a.Common.Lists.{AllTrue, length}
use new_a.Common.Strings.{Text}

unfoldable pub prepend : ℕ → List Text → List Text
prepend c [] = (c ∷ []) ∷ []
prepend c (f ∷ fs) = (c ∷ f) ∷ fs

unfoldable pub split : ℕ → Text → List Text
unfolding prepend
split b [] = [] ∷ []
split b (c ∷ cs) = if c == b then [] ∷ split b cs else prepend c (split b cs)

unfoldable pub join : ℕ → List Text → Text
join b [] = []
join b (f ∷ []) = f
join b (f ∷ g ∷ fs) = f ++ b ∷ join b (g ∷ fs)

-- The text does not hold the character.
abbrev pub Lacks : ℕ → Text → Type 0
Lacks b = AllTrue (λ c. not (c == b))

abbrev pub AllLack : ℕ → List Text → Type 0
AllLack b [] = Unit
AllLack b (f ∷ fs) = Lacks b f × AllLack b fs

pub split-Lacks : (b : ℕ) (f : Text) → Lacks b f → split b f ≡ f ∷ []
unfolding split
split-Lacks b [] h = refl
split-Lacks b (c ∷ f) h = ground (arith, split-Lacks b f h.1)

pub split-append : (b : ℕ) (f rest : Text) → Lacks b f → split b (f ++ b ∷ rest) ≡ f ∷ split b rest
unfolding split
split-append b [] rest h = ground arith
split-append b (c ∷ f) rest h = ground (arith, split-append b f rest h.1)

-- Fields without the delimiter are what `split` finds in their join.
pub split-join :
    (b : ℕ) (f : Text) (fs : List Text) → AllLack b (f ∷ fs) → split b (join b (f ∷ fs)) ≡ f ∷ fs
unfolding join
split-join b f [] h = split-Lacks b f h.0
split-join b f (g ∷ fs) h =
    split-append b f (join b (g ∷ fs)) h.0 ∙ ap (λ r. f ∷ r) (split-join b g fs h.1)

-- How often the character occurs.
abbrev pub occurrences : ℕ → Text → ℕ
occurrences b [] = 0
occurrences b (c ∷ cs) = (if c == b then 1 else 0) + occurrences b cs

length-prepend : (c : ℕ) (fs : List Text) → 0 < length fs → length (prepend c fs) ≡ length fs
unfolding prepend
length-prepend c [] h = absurd (omega arith)
length-prepend c (f ∷ fs) h = refl

pub length-split : (b : ℕ) (s : Text) → length (split b s) ≡ occurrences b s + 1
unfolding split
length-split b [] = omega arith
length-split b (c ∷ cs) = ground (arith, length-split b cs, length-prepend c (split b cs))
