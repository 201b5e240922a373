-- ===== src/EstimateLocks.antt =====
-- The locks of estimates: who edits which estimate, as the client knows it from the server
-- (`refreshEstimateLocks`, `acquireEstimateLock`, `kickEstimateFromEditor` and their neighbours in
-- web/app.js). The answers of the server are arguments. A refresh waits for its answer while other
-- handlers run, so `start_refresh` counts it and `answer_refresh` is the handler of the answer.
pub mod Acquire
pub mod Heartbeat
pub mod Polls
mod Tests
use Prim.Native.String.{String}
use new_a.Common.{
  ℕ, zero, suc, ◌-◌, Bool, true, false, not, ◌&&◌, ◌||◌, List, [], ◌∷◌, map, Option, none, some,
  if◌then◌else◌, find, Text, codes, ◌===◌, is_nonempty, starts_with, trim, find_index, remove_at,
  has,
}
use new_a.EditorTabs.{next_tab, or_kept}

pub record Lock : Type 0 where
  pub estimate_id : Text
  pub user_id : Text
  pub user_name : Text

-- `state.estimateLocks`, an object by the identifier of the estimate.
abbrev pub LockMap : Type 0
LockMap = Text → Option Lock

unfoldable pub put : Text → Lock → LockMap → LockMap
unfolding ◌===◌
put id lock m x = if id === x then some lock else m x

unfoldable pub drop_lock : Text → LockMap → LockMap
unfolding ◌===◌
drop_lock id m x = if id === x then none else m x

-- `Object.fromEntries(locks.map((lock) => [lock.estimateId, lock]))`: a later entry wins.
abbrev add_entries : List Lock → LockMap → LockMap
add_entries [] m = m
add_entries (lock ∷ locks) m = add_entries locks (put lock.estimate_id lock m)

unfoldable pub from_entries : List Lock → LockMap
unfolding put
from_entries locks = add_entries locks (λ id. none)

pub record OpenEstimate : Type 0 where
  pub id : Text
  pub object_id : Text

abbrev pub open_key : OpenEstimate → Text
open_key e = e.id

pub record Client : Type 0 where
  pub me : Option Text
  pub estimate_ids : List Text
  pub open_estimates : List OpenEstimate
  pub editor_tab : Text
  pub estimate_locks : LockMap
  pub gsn_loaded : Bool
  -- The refreshes that wait for their answer.
  pub refreshes : ℕ

abbrev user_of : Option Lock → Option Text
user_of none = none
user_of (some lock) = some lock.user_id

abbrev same_user : Option Text → Option Text → Bool
same_user none none = true
same_user (some a) (some b) = a === b
same_user _ _ = false

-- `lock?.userId === state.me?.id`.
unfoldable pub is_mine : Option Text → Option Lock → Bool
unfolding ◌===◌
is_mine me lock = same_user (user_of lock) me

abbrev has_object : Option OpenEstimate → Bool
has_object none = false
has_object (some e) = is_nonempty e.object_id

abbrev pub find_open : Text → List OpenEstimate → Option OpenEstimate
find_open id = find (λ e. e.id === id)

unfoldable pub is_persisted_estimate_id : Client → Text → Bool
unfolding starts_with has ◌===◌
is_persisted_estimate_id s id =
    if not (is_nonempty id) || starts_with (codes "session_est_") id
    then false
    else has s.estimate_ids id || has_object (find_open id s.open_estimates)

abbrev unless_mine : Option Text → Option Lock → Option Lock
unless_mine me none = none
unless_mine me (some lock) = if is_mine me (some lock) then none else some lock

unfoldable pub get_estimate_lock_info : Client → Text → Option Lock
unfolding trim is_mine
get_estimate_lock_info s id = unless_mine s.me (s.estimate_locks (trim id))

abbrev is_some : Option Lock → Bool
is_some none = false
is_some (some lock) = true

unfoldable pub is_estimate_locked_by_other : Client → Text → Bool
unfolding get_estimate_lock_info
is_estimate_locked_by_other s id = is_some (get_estimate_lock_info s id)

-- `refreshEstimateLocks` up to its `await`.
abbrev if_signed_in : Option Text → Client → Client
if_signed_in none s = s
if_signed_in (some user) s = record s { refreshes = suc s.refreshes }

unfoldable pub start_refresh : Client → Client
start_refresh s = if_signed_in s.me s

abbrev pub kick_at : Option ℕ → Text → Client → Client
kick_at none id s = s
kick_at (some index) id s =
    let left = remove_at index s.open_estimates in
    start_refresh (record s {
      open_estimates = left;
      estimate_locks = drop_lock id s.estimate_locks;
      editor_tab =
          if s.editor_tab === id
          then or_kept (next_tab index (map open_key left)) s.editor_tab
          else s.editor_tab;
      gsn_loaded = false;
    })

unfoldable pub kick_estimate_from_editor : Text → Client → Client
unfolding find_index remove_at drop_lock next_tab start_refresh ◌===◌
kick_estimate_from_editor id s = kick_at (find_index (λ e. e.id === id) s.open_estimates) id s

-- The test of the loop: a lock that was the user's own is not any more.
unfoldable pub is_lost : Client → LockMap → OpenEstimate → Bool
unfolding is_persisted_estimate_id is_mine
is_lost s next e =
    is_persisted_estimate_id s e.id
    && is_mine s.me (s.estimate_locks e.id)
    && not (is_mine s.me (next e.id))

abbrev pub kick_or_store : Option OpenEstimate → LockMap → Client → Client
kick_or_store (some e) next s = kick_estimate_from_editor e.id s
kick_or_store none next s = record s { estimate_locks = next }

-- `refreshEstimateLocks` after its `await`; `none` is a request that failed.
unfoldable pub answer_refresh : Option (List Lock) → Client → Client
unfolding from_entries is_lost kick_estimate_from_editor
answer_refresh none s = record s { refreshes = s.refreshes - 1 }
answer_refresh (some locks) s =
    let next = from_entries locks in
    kick_or_store (find (is_lost s next) s.open_estimates) next
      (record s { refreshes = s.refreshes - 1 })
