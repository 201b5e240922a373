-- ===== src/EstimateLocks/Polls.antt =====
-- What repeated answers with the same locks do to the open estimates (`refreshEstimateLocks` and
-- `kickEstimateFromEditor` of web/app.js).

pub mod Kicked
pub mod Settled
use new_a.Common.{
  ℕ, zero, suc, ◌+◌, ◌-◌, Bool, true, false, not, ◌&&◌, List, [], ◌∷◌, map, Option, none, some,
  length, filter, find, if◌then◌else◌, Text, ◌===◌, ===_iff, find_index, remove_at, has, ◌≡◌, refl,
  arith, inl, inr, Option-cases, Bool-cases,
}
use new_a.EstimateLocks.{OpenEstimate, open_key, find_open}

-- No identifier is open twice.
abbrev pub AreDistinct : List OpenEstimate → Type 0
AreDistinct [] = Unit
AreDistinct (e ∷ es) = (has (map open_key es) e.id ≡ false) × AreDistinct es

-- What removing the found element `e` leaves.
pub record Removed (es : List OpenEstimate) (e : OpenEstimate) : Type 0 where
  pub index : ℕ
  pub found : find_index (λ x. x.id === e.id) es ≡ some index
  pub distinct : AreDistinct (remove_at index es)
  pub gone : has (map open_key (remove_at index es)) e.id ≡ false
  pub shorter : length es ≡ suc (length (remove_at index es))
  pub others : (q : OpenEstimate → Bool) → q e ≡ false → filter q (remove_at index es) ≡ filter q es
  pub still_found :
      (y : Text) → e.id === y ≡ false → find_open y (remove_at index es) ≡ find_open y es

has-find :
    (p : OpenEstimate → Bool) (es : List OpenEstimate) (e : OpenEstimate)
    → find p es ≡ some e
    → has (map open_key es) e.id ≡ true
unfolding has
has-find p [] e k = cc
has-find p (x ∷ xs) e k = ground (arith, k, ===_iff x.id e.id, has-find p xs e)

pub has-remove_at_key :
    (es : List OpenEstimate) (i : ℕ) (y : Text)
    → has (map open_key es) y ≡ false
    → has (map open_key (remove_at i es)) y ≡ false
unfolding has remove_at
has-remove_at_key [] i y h = refl
has-remove_at_key (x ∷ xs) zero y h = ground (arith, h)
has-remove_at_key (x ∷ xs) (suc i) y h = ground (arith, h, has-remove_at_key xs i y)

Removed-head :
    (x : OpenEstimate) (xs : List OpenEstimate) → AreDistinct (x ∷ xs) → Removed (x ∷ xs) x
unfolding find_index remove_at has
Removed-head x xs h = record {
  index = 0;
  found = ground (arith, ===_iff x.id x.id);
  distinct = h.1;
  gone = h.0;
  shorter = refl;
  others = λ q k. ground (arith, k);
  still_found = λ y k. ground (arith, k);
}

Removed-tail :
    (x : OpenEstimate) (xs : List OpenEstimate) (e : OpenEstimate)
    → AreDistinct (x ∷ xs)
    → x.id === e.id ≡ false
    → Removed xs e
    → Removed (x ∷ xs) e
unfolding find_index remove_at has
Removed-tail x xs e h k r = record {
  index = suc r.index;
  found = ground (arith, k, r.found);
  distinct = (has-remove_at_key xs r.index x.id h.0, r.distinct);
  gone = ground (arith, k, r.gone);
  shorter = ground (arith, r.shorter);
  others = λ q l. ground (arith, r.others q l);
  still_found = λ y l. ground (arith, r.still_found y l);
}

different :
    (x : OpenEstimate) (xs : List OpenEstimate) (e : OpenEstimate)
    → has (map open_key xs) x.id ≡ false
    → has (map open_key xs) e.id ≡ true
    → x.id === e.id ≡ false
different x xs e h k = ground (arith, h, k, ===_iff x.id e.id)

pub removed_lem :
    (es : List OpenEstimate) (p : OpenEstimate → Bool) (e : OpenEstimate)
    → AreDistinct es
    → find p es ≡ some e
    → Removed es e
removed_lem [] p e h k = cc
removed_lem (x ∷ xs) p e h k = elim (Bool-cases (p x)) [
  | inl here ↦ ground (arith, k, here, Removed-head x xs h)
  | inr later ↦
      let there : find p xs ≡ some e = ground (arith, k, later) in
      Removed-tail x xs e h (different x xs e h.0 (has-find p xs e there))
        (removed_lem xs p e h.1 there)
]
