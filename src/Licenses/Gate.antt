-- ===== src/Licenses/Gate.antt =====
-- The gate that asks the server for the licences of the shown section (`applyLicenseGate`,
-- `syncLicenseSessions`, `releaseLicenseSessions` and their helpers in web/app.js). A gate waits for
-- the server while other handlers run, so its two halves are steps of their own.
pub mod Late
pub mod Order
use Prim.Native.String.{String}
use new_a.Common.{
  ℕ, zero, suc, Bool, true, false, not, ◌&&◌, ◌||◌, List, [], ◌∷◌, ◌++◌, Option, none, some, leb,
  ◌==◌, if◌then◌else◌, Text, codes, is_nonempty, trim, get_elem?, remove_at,
}
use new_a.Licenses.{
  Section, base, editor, other_section, View, section_needs_license, required_license_ids,
}

-- An entry of `state.licenseBlocked`.
pub record Blocked : Type 0 where
  pub subsection_id : Text
  pub name : Text

-- The end of a request: it failed, or the server answered with a status and an object. `denied` is
-- `payload.granted === false`, and a field that is missing is empty.
pub data Reply : Type 0 where
  failed : Reply
  replied :
      (status : ℕ)
      → (denied : Bool) → (blocked : List Blocked) → (error : Text) → (held : List Text) → Reply

-- What `syncLicenseSessions` waits for. `clears` says that the lists are emptied afterwards.
pub data Request : Type 0 where
  no_user : Request
  release : (clears : Bool) → Request
  ask : (ids : List Text) → Request

-- A call that waits: a gate of a section without licences, a gate of the given version, or a renewal
-- by the timer.
pub data Pending : Type 0 where
  releasing : (clears : Bool) → Pending
  syncing : (version : ℕ) → Request → Pending
  renewing : Request → Pending

pub record Gate : Type 0 where
  pub signed_in : Bool
  pub view : View
  pub version : ℕ
  pub license_blocked : List Blocked
  pub license_held : List Text
  pub base_blocked : Bool
  pub editor_blocked : Bool
  pub timer_runs : Bool
  pub pending : List Pending

unfoldable pub set_section_license_blocked : Section → Bool → Gate → Gate
set_section_license_blocked base blocked s = record s { base_blocked = blocked }
set_section_license_blocked editor blocked s = record s { editor_blocked = blocked }
set_section_license_blocked other_section blocked s = s

abbrev clear_lists : Gate → Gate
clear_lists s = record s { license_blocked = []; license_held = [] }

abbrev clear_if : Bool → Gate → Gate
clear_if true s = clear_lists s
clear_if false s = s

abbrev store_blocked : List Blocked → Gate → List Blocked × Gate
store_blocked blocked s = (blocked, record s { license_blocked = blocked })

abbrev one : Text → List Blocked
one name = record { subsection_id = []; name = name } ∷ []

abbrev or_licenses : Text → Text
or_licenses name = if is_nonempty name then name else codes "лицензий"

abbrev pub or_sections : List Blocked → List Blocked
or_sections [] = one (codes "выбранных разделов")
or_sections (b ∷ bs) = b ∷ bs

-- `syncLicenseSessions` after its request for licences.
unfoldable pub put_reply : Reply → Gate → List Blocked × Gate
unfolding trim
put_reply failed s = store_blocked (one (codes "лицензий")) s
put_reply (replied status denied blocked error held) s =
    if status == 403 || denied
    then store_blocked (or_sections blocked) s
    else (if leb 200 status && leb status 299
        then ([], record s { license_blocked = []; license_held = held })
        else store_blocked (one (or_licenses (trim (or_licenses error)))) s)

unfoldable pub finish_sync : Request → Reply → Gate → List Blocked × Gate
unfolding put_reply
finish_sync no_user reply s = ([], s)
finish_sync (release clears) reply s = ([], clear_if clears s)
finish_sync (ask ids) reply s = put_reply reply s

-- `syncLicenseSessions` up to its request, which a client that is not signed in does not send.
unfoldable pub start_sync : Bool → List Text → Request
start_sync false ids = no_user
start_sync true [] = release true
start_sync true (id ∷ ids) = ask (id ∷ ids)

abbrev wait_for : Pending → Gate → Gate
wait_for p s = record s { pending = s.pending ++ p ∷ [] }

-- `applyLicenseGate` up to its `await`.
unfoldable pub start_gate : Gate → Gate
unfolding start_sync section_needs_license required_license_ids
start_gate s =
    let next = suc s.version in
    if section_needs_license s.view
    then wait_for (syncing next (start_sync s.signed_in (required_license_ids s.view)))
        (record s { version = next })
    else wait_for (releasing s.signed_in)
        (clear_if (not s.signed_in) (record s { version = next; timer_runs = false }))

abbrev decide : List Blocked → Gate → Gate
decide [] s = record (set_section_license_blocked s.view.section false s) { timer_runs = true }
decide (b ∷ bs) s = record (set_section_license_blocked s.view.section true s) {
  timer_runs = false;
}

abbrev pub if_latest : ℕ → List Blocked × Gate → Gate
if_latest version (blocked, s) = if version == s.version then decide blocked s else s

abbrev unblock_editor : Section → Gate → Gate
unblock_editor editor s = set_section_license_blocked editor false s
unblock_editor _ s = s

-- The waiting call goes on with the end of its request.
unfoldable pub continue_with : Pending → Reply → Gate → Gate
unfolding finish_sync set_section_license_blocked
continue_with (releasing clears) reply s = unblock_editor s.view.section (clear_if clears s)
continue_with (syncing version request) reply s = if_latest version (finish_sync request reply s)
continue_with (renewing request) reply s = (finish_sync request reply s).1

-- What the event loop may run next: another section is shown, the timer fires, or one of the waiting
-- calls gets its answer.
pub data GateEvent : Type 0 where
  navigate : View → GateEvent
  fire : GateEvent
  resume : ℕ → Reply → GateEvent

abbrev resume_at : Option Pending → ℕ → Reply → Gate → Gate
resume_at none i reply s = s
resume_at (some p) i reply s = continue_with p reply (record s { pending = remove_at i s.pending })

unfoldable pub handle_event : GateEvent → Gate → Gate
unfolding start_gate start_sync continue_with remove_at required_license_ids
handle_event (navigate view) s = start_gate (record s { view = view })
handle_event fire s =
    if s.timer_runs
    then wait_for (renewing (start_sync s.signed_in (required_license_ids s.view))) s
    else s
handle_event (resume i reply) s = resume_at (get_elem? s.pending i) i reply s

unfoldable pub handle_events : List GateEvent → Gate → Gate
unfolding handle_event
handle_events [] s = s
handle_events (e ∷ es) s = handle_events es (handle_event e s)
