-- ===== src/Common/Whitespace.antt =====
-- `String.prototype.trim` and the removal of the characters that `\s` matches.
use Prim.Native.Nat.{ℕ}
use mathlib.Core.Path.{◌≡◌, refl, ap, ◌∙◌, sym}
use mathlib.Core.Bool.{Bool, false, not, ◌&&◌, ◌||◌}
use mathlib.Core.List.{[], ◌∷◌, ◌++◌}
use native.Mathlib.Omega.{arith}
use new_a.Common.Tests.{leb, ◌==◌, if◌then◌else◌}
use new_a.Common.Lists.{filter}
use new_a.Common.Strings.{Text, is_nonempty}

-- White space and line terminators of ECMAScript.
unfoldable pub is_space : ℕ → Bool
is_space c =
    (leb 9 c && leb c 13)
    || c == 32
    || c == 160
    || c == 0x1680
    || (leb 0x2000 c && leb c 0x200a)
    || c == 0x2028
    || c == 0x2029
    || c == 0x202f
    || c == 0x205f
    || c == 0x3000
    || c == 0xfeff

unfoldable pub trim_start : Text → Text
trim_start [] = []
trim_start (c ∷ cs) = if is_space c then trim_start cs else c ∷ cs

-- One character in front of a text whose end is trimmed.
unfoldable pub trim_cons : ℕ → Text → Text
trim_cons c [] = if is_space c then [] else c ∷ []
trim_cons c (d ∷ ds) = c ∷ d ∷ ds

unfoldable pub trim_end : Text → Text
unfolding trim_cons
trim_end [] = []
trim_end (c ∷ cs) = trim_cons c (trim_end cs)

unfoldable pub trim : Text → Text
unfolding trim_start trim_end
trim s = trim_end (trim_start s)

-- `text.replace(/\s/g, "")`.
unfoldable pub strip : Text → Text
strip s = filter (λ c. not (is_space c)) s

pub strip-append : (s t : Text) → strip (s ++ t) ≡ strip s ++ strip t
unfolding strip
strip-append [] t = refl
strip-append (c ∷ s) t = ground (arith, strip-append s t)

strip-trim_start : (s : Text) → strip (trim_start s) ≡ strip s
unfolding strip trim_start
strip-trim_start [] = refl
strip-trim_start (c ∷ s) = ground (arith, strip-trim_start s)

strip-trim_cons : (c : ℕ) (s : Text) → strip (trim_cons c s) ≡ strip (c ∷ s)
unfolding strip trim_cons
strip-trim_cons c [] = ground arith
strip-trim_cons c (d ∷ s) = refl

strip-trim_end : (s : Text) → strip (trim_end s) ≡ strip s
unfolding strip trim_end
strip-trim_end [] = refl
strip-trim_end (c ∷ s) =
    strip-trim_cons c (trim_end s)
    ∙ ap (λ (r : Text). if not (is_space c) then c ∷ r else r) (strip-trim_end s)

pub strip-trim : (s : Text) → strip (trim s) ≡ strip s
unfolding trim
strip-trim s = strip-trim_end (trim_start s) ∙ strip-trim_start s

trim_cons-append : (c d : ℕ) (s : Text) → trim_cons c (s ++ d ∷ []) ≡ c ∷ (s ++ d ∷ [])
unfolding trim_cons
trim_cons-append c d [] = refl
trim_cons-append c d (e ∷ s) = refl

is_nonempty-trim_end : (s : Text) → is_nonempty (trim_end s) ≡ is_nonempty (strip s)
unfolding trim_end strip
is_nonempty-trim_end [] = refl
is_nonempty-trim_end (c ∷ s) = ground (arith, is_nonempty-trim_end s)

is_nonempty-trim : (s : Text) → is_nonempty (trim s) ≡ is_nonempty (strip s)
unfolding trim
is_nonempty-trim s = is_nonempty-trim_end (trim_start s) ∙ ap is_nonempty (strip-trim_start s)

-- A text that is not blank is not blank once its ends are trimmed.
pub is_nonempty-trim-trim : (s : Text) → is_nonempty (trim (trim s)) ≡ is_nonempty (trim s)
is_nonempty-trim-trim s =
    is_nonempty-trim (trim s) ∙ ap is_nonempty (strip-trim s) ∙ sym (is_nonempty-trim s)

pub trim_end-append : (s : Text) (c : ℕ) → is_space c ≡ false → trim_end (s ++ c ∷ []) ≡ s ++ c ∷ []
unfolding trim_end trim_cons
trim_end-append [] c h = rw h
trim_end-append (d ∷ s) c h = rw (trim_end-append s c h) (trim_cons-append d c s)
