-- ===== src/UserPositions/Import/Codes.antt =====
-- The codes of the positions that an import adds (`importUserPositionsFromSelectedEstimates` of
-- web/app.js).
use new_a.Common.{
  ℕ, Bool, true, false, not, ◌&&◌, ◌||◌, List, [], ◌∷◌, ◌++◌, map, Option, none, some, Text, ◌===◌,
  ===_iff, has, has-add, no_repeats, ◌≡◌, refl, sym, ap, ◌∙◌, arith, inl, inr, Bool-cases,
  append-nil,
}
use new_a.Number.{Arithmetic}
use new_a.UserPositions.{UserPosition, Catalog, save_user_positions}
use new_a.UserPositions.Import.{
  EstimateLine, Candidate, Collected, collect_candidate, candidate_of, collect_lines,
  collect_estimates, known_codes, store_added, import_user_positions,
}

abbrev pub code_of : {N : Type 0} → UserPosition N → Text
code_of p = p.code

has-map_snoc :
    {N : Type 0} (ps : List (UserPosition N)) (q : UserPosition N) (y : Text)
    → has (map code_of (ps ++ q ∷ [])) y ≡ (has (map code_of ps) y || q.code === y)
unfolding has
has-map_snoc [] q y = ground arith
has-map_snoc (p ∷ ps) q y = ground (arith, has-map_snoc ps q y)

no_repeats-map_snoc :
    {N : Type 0} (ps : List (UserPosition N)) (q : UserPosition N)
    → no_repeats (map code_of (ps ++ q ∷ []))
      ≡ (no_repeats (map code_of ps) && not (has (map code_of ps) q.code))
unfolding has no_repeats
no_repeats-map_snoc [] q = refl
no_repeats-map_snoc (p ∷ ps) q =
    rw (has-map_snoc ps q p.code, no_repeats-map_snoc ps q)
      (ground (arith, ===_iff p.code q.code, ===_iff q.code p.code))

-- What was collected from candidates with the codes that `met` holds of, where `known` are there.
record Grows {N : Type 0} (known : List Text) (met : Text → Bool) (c : Collected N) : Type 0 where
  seen : (y : Text) → has c.seen y ≡ (has known y || met y)
  added : (y : Text) → has (map code_of c.added) y ≡ (met y && not (has known y))
  apart : no_repeats (map code_of c.added) ≡ true

module _ (a : Arithmetic) (is_negative is_positive : a.Num → Bool) (new_id : ℕ → Text) where
  abbrev has_code : Option (Candidate a.Num) → Text → Bool
  has_code none y = false
  has_code (some k) y = k.code === y

  -- Some line of the list, or of an estimate that was fetched, gives a candidate with this code.
  abbrev pub is_offered_by : List (EstimateLine a.Num) → Text → Bool
  is_offered_by [] y = false
  is_offered_by (l ∷ ls) y =
      has_code (candidate_of a is_negative is_positive new_id l) y || is_offered_by ls y

  abbrev pub is_offered : List (Option (List (EstimateLine a.Num))) → Text → Bool
  is_offered [] y = false
  is_offered (none ∷ es) y = is_offered es y
  is_offered (some ls ∷ es) y = is_offered_by ls y || is_offered es y

  Grows-candidate :
      (known : List Text) (met : Text → Bool) (o : Option (Candidate a.Num)) (c : Collected a.Num)
      → Grows known met c
      → Grows known
          (λ y. met y || has_code o y)
          (collect_candidate a is_negative is_positive new_id o c)
  Grows-candidate known met none c g = record {
    seen = λ y. ground (arith, g.seen y);
    added = λ y. ground (arith, g.added y);
    apart = g.apart;
  }
  Grows-candidate known met (some k) c g = elim (Bool-cases (has c.seen k.code)) [
    | inl old ↦ rw old record {
      seen = λ y. ground (arith, g.seen y, g.seen k.code, old, ===_iff k.code y);
      added = λ y. ground (arith, g.added y, g.seen k.code, old, ===_iff k.code y);
      apart = g.apart;
    }
    | inr new ↦ rw new record {
      seen = λ y. ground (arith, has-add k.code c.seen y, g.seen y);
      added = λ y.
          has-map_snoc c.added _ y
          ∙ rw (g.added y) (ground (arith, g.seen k.code, new, ===_iff k.code y));
      apart =
          no_repeats-map_snoc c.added _
          ∙ rw (g.apart, g.added k.code) (ground (arith, g.seen k.code, new));
    }
  ]

  Grows-agree :
      (known : List Text) (met met2 : Text → Bool) (c : Collected a.Num)
      → ((y : Text) → met y ≡ met2 y)
      → Grows known met c
      → Grows known met2 c
  Grows-agree known met met2 c h g = record {
    seen = λ y. g.seen y ∙ ap (λ b. has known y || b) (h y);
    added = λ y. g.added y ∙ ap (λ b. b && not (has known y)) (h y);
    apart = g.apart;
  }

  or_none : (x : Bool) → x ≡ (x || false)
  or_none true = refl
  or_none false = refl

  or_assoc : (x y z : Bool) → ((x || y) || z) ≡ (x || (y || z))
  or_assoc true y z = refl
  or_assoc false y z = refl

  Grows-lines :
      (known : List Text) (met : Text → Bool) (ls : List (EstimateLine a.Num)) (c : Collected a.Num)
      → Grows known met c
      → Grows known
          (λ y. met y || is_offered_by ls y)
          (collect_lines a is_negative is_positive new_id ls c)
  unfolding collect_lines
  Grows-lines known met [] c g = Grows-agree known met _ c (λ y. ground arith) g
  Grows-lines known met (l ∷ ls) c g =
      let o = candidate_of a is_negative is_positive new_id l in
      Grows-agree known _ _ _ (λ y. or_assoc (met y) (has_code o y) (is_offered_by ls y))
        (Grows-lines known (λ y. met y || has_code o y) ls _ (Grows-candidate known met o c g))

  Grows-estimates :
      (known : List Text) (met : Text → Bool) (es : List (Option (List (EstimateLine a.Num))))
      (c : Collected a.Num)
      → Grows known met c
      → Grows known
          (λ y. met y || is_offered es y)
          (collect_estimates a is_negative is_positive new_id es c)
  unfolding collect_estimates
  Grows-estimates known met [] c g = Grows-agree known met _ c (λ y. ground arith) g
  Grows-estimates known met (none ∷ es) c g = Grows-estimates known met es c g
  Grows-estimates known met (some ls ∷ es) c g =
      Grows-agree known _ _ _ (λ y. or_assoc (met y) (is_offered_by ls y) (is_offered es y))
        (Grows-estimates known (λ y. met y || is_offered_by ls y) es _
          (Grows-lines known met ls c g))

  -- What an import adds behind the positions that were there.
  pub record Imports (es : List (Option (List (EstimateLine a.Num)))) (s after : Catalog a.Num)
      : Type 0 where
    pub added : List (UserPosition a.Num)
    pub appended : after.items ≡ s.items ++ added
    pub codes_of_added :
        (y : Text)
        → has (map code_of added) y
          ≡ (is_offered es y && not (has (known_codes a is_negative is_positive new_id s.items) y))
    pub apart : no_repeats (map code_of added) ≡ true

  items-store_added :
      (ps : List (UserPosition a.Num)) (made : ℕ) (s : Catalog a.Num)
      → (store_added a is_negative is_positive new_id ps made s).items ≡ s.items ++ ps
  unfolding save_user_positions
  items-store_added [] made s = sym (append-nil s.items)
  items-store_added (p ∷ ps) made s = refl

  -- An import leaves the positions that are there and adds one position for each code that the lines
  -- of the fetched estimates offer and that none of the old positions has, whatever its order there.
  pub import_user_positions-Imports :
      (es : List (Option (List (EstimateLine a.Num)))) (s : Catalog a.Num)
      → Imports es s (import_user_positions a is_negative is_positive new_id es s)
  unfolding import_user_positions has no_repeats
  import_user_positions-Imports es s =
      let known = known_codes a is_negative is_positive new_id s.items in
      let start : Collected a.Num = record { seen = known; added = []; made = s.made } in
      let g : Grows known (λ y. false || is_offered es y)
          (collect_estimates a is_negative is_positive new_id es start) =
        Grows-estimates known (λ y. false) es start
          (record { seen = λ y. or_none (has known y); added = λ y. refl; apart = refl }) in
      record {
        added = (collect_estimates a is_negative is_positive new_id es start).added;
        appended =
            items-store_added (collect_estimates a is_negative is_positive new_id es start).added _
              s;
        codes_of_added = λ y. g.added y;
        apart = g.apart;
      }
