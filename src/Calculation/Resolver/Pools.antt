-- ===== src/Calculation/Resolver/Pools.antt =====
-- Which lines the resolver hands out by their code (`createEstimateCalcStatusResolver` of web/app.js).
use new_a.Common.{
  ℕ, suc, Bool, true, false, ◌&&◌, List, [], ◌∷◌, ◌++◌, Option, none, some, if◌then◌else◌, Text,
  ◌===◌, trim, ◌≡◌, refl,
}
use new_a.Calculation.{CalcLine, estimate_record_lookup_code}
use new_a.Calculation.Resolver.{Lookup, Status, is_pooled, or_by_code, resolve_status}

-- The lines handed out for statuses with this code that no identifier of a line answers.
abbrev one_handed : Bool → Option ℕ → Option ℕ → List ℕ
one_handed false known given = []
one_handed true (some at) given = []
one_handed true none none = []
one_handed true none (some at) = at ∷ []

abbrev pub handed_out : Text → List Status → List (Option ℕ) → (Text → Option ℕ) → List ℕ
handed_out code [] given ids = []
handed_out code (s ∷ ss) [] ids = []
handed_out code (s ∷ ss) (g ∷ gs) ids =
    one_handed (trim s.code === code) (ids s.line_id) g ++ handed_out code ss gs ids

-- The positions of the calculated lines with this code, in order.
module _ {N : Type 0} (is_zero : N → Bool) where
  abbrev pub has_calc_code : Text → CalcLine N → Bool
  has_calc_code code l = is_pooled is_zero l && estimate_record_lookup_code is_zero l === code

  abbrev pub positions_from : ℕ → Text → List (CalcLine N) → List ℕ
  positions_from at code [] = []
  positions_from at code (l ∷ ls) =
      let rest = positions_from (suc at) code ls in if has_calc_code code l then at ∷ rest else rest

resolve_status_lem :
    (s : Status) (k : Lookup) → resolve_status s k ≡ or_by_code (k.by_id s.line_id) (trim s.code) k
unfolding resolve_status
resolve_status_lem s k = refl
