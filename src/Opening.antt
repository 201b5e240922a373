-- ===== src/Opening.antt =====
-- Opening an estimate in the editor: `openEstimateInEditor` (web/app.js). The function waits for the
-- lock, for the estimate and for a timer, and other handlers run meanwhile, so each part between two
-- waits is a step. An estimate that is open already is taken to have its line items, which are then
-- not loaded again, and the server to answer with the estimate that it was asked for.
pub mod Shown
pub mod Twice
mod Tests
use Prim.Native.String.{String}
use new_a.Common.{
  ℕ, Bool, true, false, not, ◌&&◌, ◌||◌, List, [], ◌∷◌, ◌++◌, Option, none, some, get_elem?,
  if◌then◌else◌, Text, ◌===◌, is_nonempty, trim, find_index, remove_at, Outcome, out_of_fuel,
  thrown, returned,
}
use new_a.EditorTabs.{buffer_tab}
use new_a.EstimateLocks.{Lock, OpenEstimate, Client, is_estimate_locked_by_other}
use new_a.EstimateLocks.Acquire.{Fetched, Failure, acquire_estimate_lock, is_conflict, store_lock}

-- A call that waits: for the lock of an estimate that is open at an index, for the lock of another one,
-- for the estimate, or for the timer.
pub data Waiting : Type 0 where
  reopening : ℕ → Text → Waiting
  locking fetching : Text → Waiting
  showing : (id object_id : Text) → Waiting

-- `opening` is `editorOpeningEstimateId`, and `in_editor` says that the section is the editor.
pub record OpeningSession : Type 0 where
  pub client : Client
  pub opening : Option Text
  pub in_editor : Bool
  pub waiting : List Waiting

-- What a wait ends with: the answer to the request for a lock, and the object of the fetched estimate
-- or `none` where it could not be fetched. Each part is read where it was waited for.
pub record Answer : Type 0 where
  pub lock : Fetched
  pub object_id : Option Text

-- `sameEstimateId`.
unfoldable pub same_estimate_id : Text → Text → Bool
unfolding trim ◌===◌
same_estimate_id a b = is_nonempty (trim a) && trim a === trim b

abbrev pub wait_for : Waiting → OpeningSession → OpeningSession
wait_for w s = record s { waiting = s.waiting ++ w ∷ [] }

abbrev lock_or_reopen : Option ℕ → Text → OpeningSession → OpeningSession
lock_or_reopen none id s = wait_for (locking id) s
lock_or_reopen (some index) id s = wait_for (reopening index id) s

-- The function up to its first `await`.
unfoldable pub start_opening : Text → OpeningSession → OpeningSession
unfolding trim is_estimate_locked_by_other same_estimate_id find_index
start_opening estimate_id s =
    let id = trim estimate_id in
    if not (is_nonempty id) || is_estimate_locked_by_other s.client id
    then s
    else lock_or_reopen (find_index (λ e. same_estimate_id e.id id) s.client.open_estimates) id s

abbrev pub set_client : Client → OpeningSession → OpeningSession
set_client c s = record s { client = c }

abbrev pub show_tab : Option OpenEstimate → OpeningSession → OpeningSession
show_tab none s = s
show_tab (some e) s = record s {
  client = record (s.client) { editor_tab = e.id };
  in_editor = true;
}

abbrev pub lock_of : Failure → Option Lock
lock_of f = if is_conflict f.status then f.lock else none

abbrev pub reopened : ℕ → Text → Outcome Failure Client → OpeningSession → OpeningSession
reopened index id out_of_fuel s = s
reopened index id (thrown f) s = set_client (store_lock id (lock_of f) s.client) s
reopened index id (returned c) s = show_tab (get_elem? c.open_estimates index) (set_client c s)

abbrev pub is_opening : Option Text → Text → Bool
is_opening none id = false
is_opening (some x) id = x === id

-- The `catch` around the whole.
unfoldable pub opening_failed : Text → OpeningSession → OpeningSession
unfolding same_estimate_id ◌===◌
opening_failed id s =
    if is_opening s.opening id
    then (if s.in_editor && same_estimate_id s.client.editor_tab id
        then record s {
          client = record (s.client) { editor_tab = buffer_tab };
          opening = none;
          in_editor = false;
        }
        else record s { opening = none })
    else s

abbrev pub conflict_or_failed : Option Lock → Text → OpeningSession → OpeningSession
conflict_or_failed (some lock) id s = set_client (store_lock id (some lock) s.client) s
conflict_or_failed none id s = opening_failed id s

abbrev pub locked : Text → Outcome Failure Client → OpeningSession → OpeningSession
locked id out_of_fuel s = s
locked id (thrown f) s = conflict_or_failed (lock_of f) id s
locked id (returned c) s = wait_for (fetching id) (set_client c s)

abbrev pub fetched : Text → Option Text → OpeningSession → OpeningSession
fetched id none s = s
fetched id (some object_id) s = record s {
  client = record (s.client) { editor_tab = id };
  opening = some id;
  in_editor = true;
  waiting = s.waiting ++ showing id object_id ∷ [];
}

abbrev pub pushed : Text → Text → OpeningSession → OpeningSession
pushed id object_id s =
    if is_opening s.opening id
    then record s {
      client = record (s.client) {
        open_estimates = s.client.open_estimates ++ record { id = id; object_id = object_id } ∷ [];
      };
      opening = none;
    }
    else s

unfoldable pub continue_opening : Waiting → Answer → OpeningSession → OpeningSession
unfolding acquire_estimate_lock opening_failed
continue_opening (reopening index id) a s =
    reopened index id (acquire_estimate_lock id a.lock s.client) s
continue_opening (locking id) a s = locked id (acquire_estimate_lock id a.lock s.client) s
continue_opening (fetching id) a s = fetched id a.object_id s
continue_opening (showing id object_id) a s = pushed id object_id s

pub data OpenEvent : Type 0 where
  click : Text → OpenEvent
  finish : ℕ → Answer → OpenEvent

abbrev pub finish_at : Option Waiting → ℕ → Answer → OpeningSession → OpeningSession
finish_at none i a s = s
finish_at (some w) i a s = continue_opening w a (record s { waiting = remove_at i s.waiting })

unfoldable pub handle_open : OpenEvent → OpeningSession → OpeningSession
unfolding start_opening continue_opening remove_at
handle_open (click id) s = start_opening id s
handle_open (finish i a) s = finish_at (get_elem? s.waiting i) i a s

unfoldable pub handle_opens : List OpenEvent → OpeningSession → OpeningSession
unfolding handle_open
handle_opens [] s = s
handle_opens (e ∷ es) s = handle_opens es (handle_open e s)
