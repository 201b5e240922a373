-- ===== src/EstimateLocks/Heartbeat.antt =====
-- The heartbeat that renews the user's locks (`refreshOwnedEstimateLocks` of web/app.js), where no
-- other handler runs while its requests wait.
pub mod Kicks
pub mod Confirmed
use new_a.Common.{Bool, true, false, List, [], ◌∷◌, Option, none, some, if◌then◌else◌, Text}
use new_a.EstimateLocks.{
  Lock, LockMap, from_entries, OpenEstimate, Client, is_persisted_estimate_id, is_mine,
  kick_estimate_from_editor,
}
use new_a.EstimateLocks.Acquire.{Fetched, acquire_estimate_lock, or_conflict}

-- One round of the loop.
unfoldable pub renew_one : LockMap → (Text → Fetched) → OpenEstimate → Client → Client
unfolding is_persisted_estimate_id is_mine kick_estimate_from_editor acquire_estimate_lock
    or_conflict
renew_one server fetch e s =
    if is_persisted_estimate_id s e.id
    then (if is_mine s.me (server e.id)
        then or_conflict e.id (acquire_estimate_lock e.id (fetch e.id) s) s
        else (if is_mine s.me (s.estimate_locks e.id) then kick_estimate_from_editor e.id s else s))
    else s

-- The loop runs over a copy of `state.openEstimates`.
unfoldable pub renew_each : LockMap → (Text → Fetched) → List OpenEstimate → Client → Client
unfolding renew_one
renew_each server fetch [] s = s
renew_each server fetch (e ∷ es) s = renew_each server fetch es (renew_one server fetch e s)

abbrev renew_all : LockMap → (Text → Fetched) → Client → Client
renew_all server fetch s = record (renew_each server fetch s.open_estimates s) {
  estimate_locks = server;
}

-- `none` is a request for the locks that failed.
unfoldable pub refresh_owned_estimate_locks :
    Option (List Lock) → (Text → Fetched) → Client → Client
unfolding renew_each from_entries
refresh_owned_estimate_locks none fetch s = s
refresh_owned_estimate_locks (some locks) fetch s = elim s.me [
  | none ↦ s
  | some user ↦ renew_all (from_entries locks) fetch s
]
