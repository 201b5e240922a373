-- ===== src/EstimateLocks/Acquire/Restored.antt =====
-- The locks that the client knows of after `restoreOpenEstimateLocks` (web/app.js).
use new_a.Common.{
  Bool, true, false, ◌&&◌, ◌||◌, List, [], ◌∷◌, map, Option, if◌then◌else◌, Text, ◌===◌, ===_iff,
  has, ◌≡◌, refl, sym, ap, ◌∙◌, inl, inr, Option-cases, Bool-cases,
}
use new_a.EstimateLocks.{Lock, OpenEstimate, open_key, Client, is_persisted_estimate_id}
use new_a.EstimateLocks.Acquire.{Fetched, restore_one, restore_each, restore_open_estimate_locks}
use new_a.EstimateLocks.Acquire.Reported.{
  reported_lock, restored, after_catch, acquired_lem, after_catch_locks,
}

restore_one_kept :
    (fetch : Text → Fetched) (e : OpenEstimate) (s : Client)
    → ((restore_one fetch e s).open_estimates ≡ s.open_estimates)
      × ((restore_one fetch e s).estimate_ids ≡ s.estimate_ids)
unfolding restore_one
restore_one_kept fetch e s = elim (Bool-cases (is_persisted_estimate_id s e.id)) [
  | inr session ↦ rw session (refl, refl)
  | inl persisted ↦ elim (acquired_lem e.id (fetch e.id) s) [
    | inl kept ↦ rw (persisted, kept) (refl, refl)
    | inr (lock, stored) ↦ rw (persisted, stored) (refl, refl)
  ]
]

restore_one_persisted :
    (fetch : Text → Fetched) (e : OpenEstimate) (s : Client)
    → is_persisted_estimate_id s e.id ≡ true
    → restore_one fetch e s ≡ after_catch e.id (fetch e.id) s
unfolding restore_one
restore_one_persisted fetch e s h = rw h refl

restore_one_session :
    (fetch : Text → Fetched) (e : OpenEstimate) (s : Client)
    → is_persisted_estimate_id s e.id ≡ false
    → restore_one fetch e s ≡ s
unfolding restore_one
restore_one_session fetch e s h = rw h refl

restore_one_locks :
    (fetch : Text → Fetched) (e : OpenEstimate) (s : Client) (y : Text)
    → (restore_one fetch e s).estimate_locks y ≡ (
        if e.id === y && is_persisted_estimate_id s y
        then restored (fetch y) (s.estimate_locks y)
        else s.estimate_locks y)
restore_one_locks fetch e s y = elim (Bool-cases (e.id === y)) [
  | inl same ↦ elim (Bool-cases (is_persisted_estimate_id s e.id)) [
    | inl persisted ↦
        let at_y = ap (is_persisted_estimate_id s) (sym ((===_iff e.id y).0 same)) ∙ persisted in
        rw
          (
            restore_one_persisted fetch e s persisted,
            after_catch_locks e.id (fetch e.id) s y,
            same,
            at_y,
          )
          (ap (λ x. restored (fetch x) (s.estimate_locks y)) ((===_iff e.id y).0 same))
    | inr session ↦
        let at_y = ap (is_persisted_estimate_id s) (sym ((===_iff e.id y).0 same)) ∙ session in
        rw (restore_one_session fetch e s session, same, at_y) refl
  ]
  | inr other ↦ elim (Bool-cases (is_persisted_estimate_id s e.id)) [
    | inl persisted ↦
        rw
          (
            restore_one_persisted fetch e s persisted,
            after_catch_locks e.id (fetch e.id) s y,
            other,
          )
          refl
    | inr session ↦ rw (restore_one_session fetch e s session, other) refl
  ]
]

restored_twice :
    (answer : Fetched) (known : Option Lock)
    → restored answer (restored answer known) ≡ restored answer known
restored_twice answer known = elim (Option-cases (reported_lock answer)) [
  | inl h ↦ rw h refl
  | inr (lock, h) ↦ rw h refl
]

is_persisted_estimate_id-same :
    (s t : Client) (y : Text)
    → t.open_estimates ≡ s.open_estimates
    → t.estimate_ids ≡ s.estimate_ids
    → is_persisted_estimate_id t y ≡ is_persisted_estimate_id s y
unfolding is_persisted_estimate_id
is_persisted_estimate_id-same s t y a b = rw (a, b) refl

once_or_twice :
    (a b p : Bool) (f : Option Lock → Option Lock) (x : Option Lock)
    → f (f x) ≡ f x
    → (if b && p then f (if a && p then f x else x) else (if a && p then f x else x))
      ≡ (if (a || b) && p then f x else x)
once_or_twice true true true f x h = h
once_or_twice true false true f x h = refl
once_or_twice false true true f x h = refl
once_or_twice false false true f x h = refl
once_or_twice true true false f x h = refl
once_or_twice true false false f x h = refl
once_or_twice false true false f x h = refl
once_or_twice false false false f x h = refl

restore_each_locks :
    (fetch : Text → Fetched) (es : List OpenEstimate) (s : Client) (y : Text)
    → ((restore_each fetch es s).estimate_locks y ≡ (
        if has (map open_key es) y && is_persisted_estimate_id s y
        then restored (fetch y) (s.estimate_locks y)
        else s.estimate_locks y))
      × ((restore_each fetch es s).open_estimates ≡ s.open_estimates)
unfolding has
restore_each_locks fetch [] s y = (refl, refl)
restore_each_locks fetch (e ∷ es) s y =
    let later = restore_each_locks fetch es (restore_one fetch e s) y in
    let kept = restore_one_kept fetch e s in
    (
      later.0
          ∙ rw
              (
                is_persisted_estimate_id-same s (restore_one fetch e s) y kept.0 kept.1,
                restore_one_locks fetch e s y,
              )
              (once_or_twice (e.id === y) (has (map open_key es) y) (is_persisted_estimate_id s y)
                (restored (fetch y)) (s.estimate_locks y)
                (restored_twice (fetch y) (s.estimate_locks y))),
      later.1 ∙ kept.0,
    )

-- Restoring the locks asks for each persisted open estimate and stores what the server reports:
-- the lock that it grants, or with status 409 the lock of the user who holds it. Without a report, and
-- for every other identifier, the known lock stays. No estimate is closed.
pub restore_open_estimate_locks-locks :
    (fetch : Text → Fetched) (s : Client) (y : Text)
    → ((restore_open_estimate_locks fetch s).estimate_locks y ≡ (
        if has (map open_key s.open_estimates) y && is_persisted_estimate_id s y
        then restored (fetch y) (s.estimate_locks y)
        else s.estimate_locks y))
      × ((restore_open_estimate_locks fetch s).open_estimates ≡ s.open_estimates)
unfolding restore_open_estimate_locks
restore_open_estimate_locks-locks fetch s y = restore_each_locks fetch s.open_estimates s y
