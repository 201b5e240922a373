-- ===== src/EditorTabs/Overlap.antt =====
-- Two closings whose awaits overlap (`closeEstimateFromEditor` of web/app.js).
use new_a.Common.{
  ℕ, false, List, [], ◌∷◌, ◌++◌, Option, none, some, Text, ◌===◌, ===_refl, ◌≡◌, arith,
}
use new_a.EditorTabs.{Tabs, start_close, finish_close}

-- The tabs, and the closings that wait between their halves, the oldest first.
pub record Session : Type 0 where
  pub tabs : Tabs
  pub pending : List (Text × ℕ)

-- What the event loop may run next: the first half of a closing, or the second half of the oldest
-- one that waits.
pub data Event : Type 0 where
  begin : Text → Event
  resume : Event

abbrev begin_with : Text → Option ℕ → Session → Session
begin_with id none s = s
begin_with id (some index) s = record s { pending = s.pending ++ (id, index) ∷ [] }

unfoldable pub handle : Event → Session → Session
unfolding start_close finish_close
handle (begin id) s = begin_with id (start_close id s.tabs) s
handle resume s = elim s.pending [
  | [] ↦ s
  | (id, index) ∷ later ↦ record { tabs = finish_close index id s.tabs; pending = later }
]

unfoldable pub handle_all : List Event → Session → Session
unfolding handle
handle_all [] s = s
handle_all (e ∷ es) s = handle_all es (handle e s)

abbrev pub open_session : List Text → Text → Session
open_session ids tab = record { tabs = record { open_ids = ids; editor_tab = tab }; pending = [] }

-- Overlapping closings remove the wrong estimate: where `b` is closed while the closing of `a`
-- directly before it waits, and the closing of `a` ends first, the estimate `c` behind the two is
-- removed and `b` stays open.
pub open_ids-handle_all :
    (a b c tab : Text) (rest : List Text)
    → a === b ≡ false
    → (handle_all
        (begin a ∷ begin b ∷ resume ∷ resume ∷ [])
        (open_session (a ∷ b ∷ c ∷ rest) tab)).tabs.open_ids
      ≡ b ∷ rest
unfolding handle_all
open_ids-handle_all a b c tab rest h = ground (arith, ===_refl a, ===_refl b, h)
