-- ===== src/EstimateLocks/Acquire/Reported.antt =====
-- What the end of a request for a lock does to the known locks (`acquireEstimateLock` of web/app.js and
-- the handlers of its errors).
use new_a.Common.{
  ℕ, Bool, true, false, ◌&&◌, Option, none, some, leb, ◌==◌, if◌then◌else◌, Text, ◌===◌, ◌≡◌, refl,
  arith, ◌⊎◌, inl, inr, Option-cases, Bool-cases,
}
use new_a.EstimateLocks.{Lock, Client, put}
use new_a.EstimateLocks.Acquire.{
  Payload, Fetched, rejected, responded, acquire_estimate_lock, or_conflict,
}

abbrev as_lock_of : Option Payload → Option Lock
as_lock_of none = none
as_lock_of (some p) = some p.as_lock

abbrev lock_field : Option Payload → Option Lock
lock_field none = none
lock_field (some p) = p.lock

-- The lock that an answer reports: the one it grants, or the one of the user who holds it.
abbrev pub reported_lock : Fetched → Option Lock
reported_lock (rejected message) = none
reported_lock (responded status payload) =
    if leb 200 status && leb status 299
    then as_lock_of payload
    else (if status == 409 then lock_field payload else none)

abbrev or_known : Option Lock → Option Lock → Option Lock
or_known none known = known
or_known (some lock) known = some lock

abbrev pub restored : Fetched → Option Lock → Option Lock
restored answer known = or_known (reported_lock answer) known

abbrev pub after_catch : Text → Fetched → Client → Client
after_catch id f s = or_conflict id (acquire_estimate_lock id f s) s

-- The end of a request changes nothing or stores one lock.
pub acquired_lem :
    (id : Text) (f : Fetched) (s : Client)
    → (or_conflict id (acquire_estimate_lock id f s) s ≡ s)
      ⊎ ((lock : Lock) × (or_conflict id (acquire_estimate_lock id f s) s
            ≡ record s { estimate_locks = put id lock s.estimate_locks }))
unfolding acquire_estimate_lock or_conflict
acquired_lem id (rejected m) s = inl refl
acquired_lem id (responded status none) s = elim (Bool-cases (status == 409)) [
  | inl conflict ↦ inl (rw (conflict, conflict) refl)
  | inr other ↦ elim (Bool-cases (leb 200 status && leb status 299)) [
    | inl ok ↦ inl (rw (other, ok) refl)
    | inr failed ↦ inl (rw (other, failed, other) refl)
  ]
]
acquired_lem id (responded status (some p)) s = elim (Bool-cases (status == 409)) [
  | inl conflict ↦ elim (Option-cases (p.lock)) [
    | inl no_lock ↦ inl (rw (conflict, conflict, no_lock) refl)
    | inr (lock, known) ↦ inr (lock, rw (conflict, conflict, known) refl)
  ]
  | inr other ↦ elim (Bool-cases (leb 200 status && leb status 299)) [
    | inl ok ↦ inr (p.as_lock, rw (other, ok) refl)
    | inr failed ↦ inl (rw (other, failed, other) refl)
  ]
]

same_either : (b : Bool) (o : Option Lock) → o ≡ (if b then o else o)
same_either true o = refl
same_either false o = refl

not_ok : (status : ℕ) → status == 409 ≡ true → (leb 200 status && leb status 299) ≡ false
not_ok status h = ground arith

pub after_catch_locks :
    (id : Text) (f : Fetched) (s : Client) (y : Text)
    → (after_catch id f s).estimate_locks y
      ≡ (if id === y then restored f (s.estimate_locks y) else s.estimate_locks y)
unfolding acquire_estimate_lock or_conflict put
after_catch_locks id (rejected message) s y = same_either (id === y) (s.estimate_locks y)
after_catch_locks id (responded status none) s y = elim (Bool-cases (status == 409)) [
  | inl conflict ↦ rw (conflict, conflict, not_ok status conflict) (same_either (id === y) _)
  | inr other ↦ elim (Bool-cases (leb 200 status && leb status 299)) [
    | inl ok ↦ rw (other, ok) (same_either (id === y) _)
    | inr failed ↦ rw (other, failed, other) (same_either (id === y) _)
  ]
]
after_catch_locks id (responded status (some p)) s y = elim (Bool-cases (status == 409)) [
  | inl conflict ↦ elim (Option-cases (p.lock)) [
    | inl no_lock ↦
        rw (conflict, conflict, not_ok status conflict, no_lock) (same_either (id === y) _)
    | inr (lock, known) ↦ rw (conflict, conflict, not_ok status conflict, known) refl
  ]
  | inr other ↦ elim (Bool-cases (leb 200 status && leb status 299)) [
    | inl ok ↦ rw (other, ok) refl
    | inr failed ↦ rw (other, failed, other) (same_either (id === y) _)
  ]
]
