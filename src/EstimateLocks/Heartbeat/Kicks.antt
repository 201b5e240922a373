-- ===== src/EstimateLocks/Heartbeat/Kicks.antt =====
-- Closing one of the open estimates by its identifier (`kickEstimateFromEditor` of web/app.js).
use new_a.Common.{
  ℕ, zero, suc, true, false, not, ◌&&◌, List, [], ◌∷◌, map, none, some, Text, ◌===◌, ===_iff,
  find_index, remove_at, has, ◌≡◌, refl, arith, inl, inr, Option-cases,
}
use new_a.EstimateLocks.{
  OpenEstimate, open_key, find_open, Client, LockMap, drop_lock, kick_estimate_from_editor,
}
use new_a.EstimateLocks.Polls.{AreDistinct, has-remove_at_key}
use new_a.EstimateLocks.Polls.Kicked.{kick_found}

-- `left` is `es` without the estimate `id`.
pub record Without (id : Text) (es left : List OpenEstimate) : Type 0 where
  pub distinct : AreDistinct left
  pub members : (y : Text) → has (map open_key left) y ≡ (not (id === y) && has (map open_key es) y)
  pub others : (y : Text) → id === y ≡ false → find_open y left ≡ find_open y es

members_absent :
    (id : Text) (xs : List OpenEstimate) (y : Text)
    → find_index (λ e. e.id === id) xs ≡ none
    → has (map open_key xs) y ≡ (not (id === y) && has (map open_key xs) y)
unfolding find_index has
members_absent id [] y k = ground arith
members_absent id (x ∷ xs) y k = elim (Option-cases (find_index (λ e. e.id === id) xs)) [
  | inl l ↦
      ground (arith, k, l, members_absent id xs y l, ===_iff x.id y, ===_iff x.id id, ===_iff id y)
  | inr (i, l) ↦ ground (arith, k, l)
]

Without-absent :
    (id : Text) (es : List OpenEstimate)
    → AreDistinct es
    → find_index (λ e. e.id === id) es ≡ none
    → Without id es es
Without-absent id es d h = record {
  distinct = d;
  members = λ y. members_absent id es y h;
  others = λ y k. refl;
}

Without-head :
    (x : OpenEstimate) (xs : List OpenEstimate) (id : Text)
    → AreDistinct (x ∷ xs)
    → x.id === id ≡ true
    → Without id (x ∷ xs) xs
unfolding has
Without-head x xs id d h = record {
  distinct = d.1;
  members = λ y. ground (arith, d.0, h, ===_iff x.id id, ===_iff id y, ===_iff x.id y);
  others = λ y k. ground (arith, h, k, ===_iff x.id id, ===_iff id y, ===_iff x.id y);
}

Without-tail :
    (x : OpenEstimate) (xs : List OpenEstimate) (i : ℕ) (id : Text)
    → AreDistinct (x ∷ xs)
    → x.id === id ≡ false
    → Without id xs (remove_at i xs)
    → Without id (x ∷ xs) (x ∷ remove_at i xs)
unfolding has
Without-tail x xs i id d h w = record {
  distinct = (has-remove_at_key xs i x.id d.0, w.distinct);
  members = λ y. ground (arith, h, w.members y, ===_iff x.id id, ===_iff id y, ===_iff x.id y);
  others = λ y k. ground (arith, h, k, w.others y k);
}

Without-at :
    (id : Text) (es : List OpenEstimate) (i : ℕ)
    → AreDistinct es
    → find_index (λ e. e.id === id) es ≡ some i
    → Without id es (remove_at i es)
unfolding find_index remove_at
Without-at id [] i d h = cc
Without-at id (x ∷ xs) zero d h = elim (Option-cases (find_index (λ e. e.id === id) xs)) [
  | inl l ↦ Without-head x xs id d (ground (arith, h, l))
  | inr (j, l) ↦ Without-head x xs id d (ground (arith, h, l))
]
Without-at id (x ∷ xs) (suc i) d h = elim (Option-cases (find_index (λ e. e.id === id) xs)) [
  | inl l ↦ ground (arith, h, l)
  | inr (j, l) ↦
      Without-tail x xs i id d (ground (arith, h, l))
        (Without-at id xs i d.1 (ground (arith, h, l)))
]

-- The part of the state that closing an estimate leaves in a known shape.
pub record Kicked (id user : Text) (s after : Client) : Type 0 where
  pub left : Without id s.open_estimates after.open_estimates
  pub same_user : after.me ≡ some user
  pub same_estimates : after.estimate_ids ≡ s.estimate_ids
  pub other_locks : (y : Text) → id === y ≡ false → after.estimate_locks y ≡ s.estimate_locks y

kick_absent :
    (s : Client) (id : Text)
    → find_index (λ e. e.id === id) s.open_estimates ≡ none
    → kick_estimate_from_editor id s ≡ s
unfolding kick_estimate_from_editor
kick_absent s id h = rw h refl

drop_lock_other : (id y : Text) (m : LockMap) → id === y ≡ false → drop_lock id m y ≡ m y
unfolding drop_lock
drop_lock_other id y m h = rw h refl

pub kicked_lem :
    (id user : Text) (s : Client)
    → AreDistinct s.open_estimates
    → s.me ≡ some user
    → Kicked id user s (kick_estimate_from_editor id s)
kicked_lem id user s d m = elim (Option-cases (find_index (λ e. e.id === id) s.open_estimates)) [
  | inl absent ↦ rw (kick_absent s id absent) record {
    left = Without-absent id s.open_estimates d absent;
    same_user = m;
    same_estimates = refl;
    other_locks = λ y k. refl;
  }
  | inr (i, found) ↦ rw (kick_found s id user i found m) record {
    left = Without-at id s.open_estimates i d found;
    same_user = m;
    same_estimates = refl;
    other_locks = λ y k. drop_lock_other id y s.estimate_locks k;
  }
]
