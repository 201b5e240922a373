-- ===== src/EstimateLocks/Acquire.antt =====
-- Taking and giving back the lock of an estimate: `acquireEstimateLock`, `releaseEstimateLock`,
-- `releaseAllEstimateLocks` and `restoreOpenEstimateLocks` (web/app.js).
pub mod Reported
pub mod Restored
use Prim.Native.String.{String}
use new_a.Common.{
  ℕ, Bool, true, false, not, ◌&&◌, ◌||◌, List, [], ◌∷◌, ◌++◌, map, Option, none, some, filter, leb,
  ◌==◌, if◌then◌else◌, Text, codes, is_nonempty, digits, Outcome, out_of_fuel, thrown, returned,
}
use new_a.EstimateLocks.{Lock, put, drop_lock, OpenEstimate, Client, is_persisted_estimate_id}

-- What the client reads of an answer that is JSON: the lock it is, or its fields `error` and `lock`.
pub record Payload : Type 0 where
  pub as_lock : Lock
  pub error : Text
  pub lock : Option Lock

-- The end of the request: the network failed, or the server answered.
pub data Fetched : Type 0 where
  rejected : (message : Text) → Fetched
  responded : (status : ℕ) → (payload : Option Payload) → Fetched

-- The error that the function throws.
pub record Failure : Type 0 where
  pub message : Text
  pub status : Option ℕ
  pub lock : Option Lock

abbrev error_or : Option Payload → Text → Text
error_or none message = message
error_or (some p) message = if is_nonempty p.error then p.error else message

abbrev lock_of : Option Payload → Option Lock
lock_of none = none
lock_of (some p) = p.lock

abbrev store_payload : Text → Option Payload → Client → Client
store_payload id none s = s
store_payload id (some p) s = record s { estimate_locks = put id p.as_lock s.estimate_locks }

unfoldable pub acquire_estimate_lock : Text → Fetched → Client → Outcome Failure Client
unfolding put digits
acquire_estimate_lock id (rejected message) s =
    thrown (record { message = message; status = none; lock = none })
acquire_estimate_lock id (responded status payload) s =
    if status == 409
    then thrown (record {
      message = error_or payload (codes "смета редактируется другим пользователем");
      status = some status;
      lock = lock_of payload;
    })
    else (if leb 200 status && leb status 299
        then returned (store_payload id payload s)
        else thrown (record {
          message = error_or payload (codes "HTTP " ++ digits status);
          status = some status;
          lock = none;
        }))

-- `if (error.status === 409 && error.lock) { state.estimateLocks[id] = error.lock; }`.
abbrev pub is_conflict : Option ℕ → Bool
is_conflict none = false
is_conflict (some status) = status == 409

abbrev pub store_lock : Text → Option Lock → Client → Client
store_lock id none s = s
store_lock id (some lock) s = record s { estimate_locks = put id lock s.estimate_locks }

unfoldable pub or_conflict : Text → Outcome Failure Client → Client → Client
unfolding put
or_conflict id out_of_fuel s = s
or_conflict id (thrown f) s = if is_conflict f.status then store_lock id f.lock s else s
or_conflict id (returned acquired) s = acquired

-- The server drops the lock or fails, and the client forgets it either way.
unfoldable pub release_estimate_lock : Text → Client → Client
unfolding is_persisted_estimate_id drop_lock
release_estimate_lock id s = elim s.me [
  | none ↦ s
  | some user ↦
      if is_persisted_estimate_id s id
      then record s { estimate_locks = drop_lock id s.estimate_locks }
      else s
]

abbrev release_each : List OpenEstimate → Client → Client
release_each [] s = s
release_each (e ∷ es) s = release_each es (release_estimate_lock e.id s)

unfoldable pub release_all_estimate_locks : Client → Client
unfolding release_estimate_lock
release_all_estimate_locks s =
    release_each (filter (λ e. is_persisted_estimate_id s e.id) s.open_estimates) s

-- One round of the loop of `restoreOpenEstimateLocks`; `fetch id` is the end of the request.
unfoldable pub restore_one : (Text → Fetched) → OpenEstimate → Client → Client
unfolding is_persisted_estimate_id acquire_estimate_lock or_conflict
restore_one fetch e s =
    if is_persisted_estimate_id s e.id
    then or_conflict e.id (acquire_estimate_lock e.id (fetch e.id) s) s
    else s

abbrev pub restore_each : (Text → Fetched) → List OpenEstimate → Client → Client
restore_each fetch [] s = s
restore_each fetch (e ∷ es) s = restore_each fetch es (restore_one fetch e s)

unfoldable pub restore_open_estimate_locks : (Text → Fetched) → Client → Client
unfolding restore_one
restore_open_estimate_locks fetch s = restore_each fetch s.open_estimates s
