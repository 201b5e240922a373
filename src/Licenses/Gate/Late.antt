-- ===== src/Licenses/Gate/Late.antt =====
-- Where the gate shows the wrong state (`applyLicenseGate` of web/app.js).
use new_a.Common.{
  ℕ, suc, true, false, List, [], ◌∷◌, ◌++◌, remove_at, ◌==◌, ==_iff, Text, ◌≡◌, refl, ap, ◌∙◌, inl,
  inr, Bool-cases,
}
use new_a.Licenses.{base, editor, View, section_needs_license, required_license_ids}
use new_a.Licenses.Gate.{
  Reply, replied, ask, releasing, syncing, Gate, continue_with, GateEvent, navigate, resume,
  handle_event, handle_events, or_sections,
}
use new_a.Licenses.Gate.Order.{resumed_call}

-- The server refuses the licences.
abbrev pub refusal : Reply
refusal = replied 403 true [] [] []

same_version : (n : ℕ) → n == n ≡ true
same_version n = (==_iff n n).1 refl

navigate_free :
    (v : View) (s : Gate)
    → s.signed_in ≡ true
    → s.pending ≡ []
    → section_needs_license v ≡ false
    → handle_event (navigate v) s ≡ record s {
      view = v;
      version = suc s.version;
      timer_runs = false;
      pending = releasing true ∷ [];
    }
unfolding handle_event
navigate_free v s m p n = rw (n, m, p) refl

navigate_licensed :
    (v : View) (s : Gate) (id : Text) (ids : List Text)
    → s.signed_in ≡ true
    → section_needs_license v ≡ true
    → required_license_ids v ≡ id ∷ ids
    → handle_event (navigate v) s ≡ record s {
      view = v;
      version = suc s.version;
      pending = s.pending ++ syncing (suc s.version) (ask (id ∷ ids)) ∷ [];
    }
unfolding handle_event
navigate_licensed v s id ids m n r = rw (n, r, m) refl

refused :
    (ids : List Text) (s : Gate)
    → s.view.section ≡ editor
    → continue_with (syncing s.version (ask ids)) refusal s
      ≡ record s { license_blocked = or_sections []; editor_blocked = true; timer_runs = false }
unfolding continue_with
refused ids s e = rw (same_version s.version, e) refl

released :
    (reply : Reply) (s : Gate)
    → s.view.section ≡ editor
    → continue_with (releasing true) reply s
      ≡ record s { license_blocked = []; license_held = []; editor_blocked = false }
unfolding continue_with
released reply s e = rw e refl

-- Both calls wait.
abbrev both_wait : View → List Text → Gate → Gate
both_wait table ids s = record s {
  view = table;
  version = suc (suc s.version);
  timer_runs = false;
  pending = releasing true ∷ syncing (suc (suc s.version)) (ask ids) ∷ [];
}

abbrev two : GateEvent → GateEvent → Gate → Gate
two a b s = handle_event b (handle_event a s)

both_navigated :
    (free table : View) (id : Text) (ids : List Text) (s : Gate)
    → s.signed_in ≡ true
    → s.pending ≡ []
    → section_needs_license free ≡ false
    → section_needs_license table ≡ true
    → required_license_ids table ≡ id ∷ ids
    → two (navigate free) (navigate table) s ≡ both_wait table (id ∷ ids) s
both_navigated free table id ids s m p n t r =
    ap (handle_event (navigate table)) (navigate_free free s m p n)
    ∙ navigate_licensed table _ id ids m t r

release_first :
    (table : View) (ids : List Text) (reply : Reply) (s : Gate)
    → table.section ≡ editor
    → (two (resume 0 reply) (resume 0 refusal) (both_wait table ids s)).editor_blocked ≡ true
unfolding remove_at
release_first table ids reply s e =
    let w : Gate = both_wait table ids s in
    let sync = syncing (suc (suc s.version)) (ask ids) in
    let w1 : Gate = record w {
      license_blocked = [];
      license_held = [];
      editor_blocked = false;
      pending = sync ∷ [];
    } in
    let first : handle_event (resume 0 reply) w ≡ w1 =
      resumed_call 0 reply w (releasing true) refl
      ∙ released reply (record w { pending = sync ∷ [] }) e in
    ap (λ g. (handle_event (resume 0 refusal) g).editor_blocked) first
    ∙ ap (λ g. g.editor_blocked)
        (resumed_call 0 refusal w1 sync refl ∙ refused ids (record w1 { pending = [] }) e)

refusal_first :
    (table : View) (ids : List Text) (reply : Reply) (s : Gate)
    → table.section ≡ editor
    → (two (resume 1 refusal) (resume 0 reply) (both_wait table ids s)).editor_blocked ≡ false
unfolding remove_at
refusal_first table ids reply s e =
    let w : Gate = both_wait table ids s in
    let w1 : Gate = record w {
      license_blocked = or_sections [];
      editor_blocked = true;
      timer_runs = false;
      pending = releasing true ∷ [];
    } in
    let first : handle_event (resume 1 refusal) w ≡ w1 =
      resumed_call 1 refusal w (syncing (suc (suc s.version)) (ask ids)) refl
      ∙ refused ids (record w { pending = releasing true ∷ [] }) e in
    ap (λ g. (handle_event (resume 0 reply) g).editor_blocked) first
    ∙ ap (λ g. g.editor_blocked)
        (resumed_call 0 reply w1 (releasing true) refl
          ∙ released reply (record w1 { pending = [] }) e)

four_events :
    (a b c d : GateEvent) (s : Gate) → handle_events (a ∷ b ∷ c ∷ d ∷ []) s ≡ two c d (two a b s)
unfolding handle_events
four_events a b c d s = refl

-- A release that ends late opens a refused section: a user who leaves a section without licences for
-- the estimate table of the editor is refused there, and the editor is blocked if the release of the
-- first section ended before the refusal and open if it ends after it.
pub editor_blocked-handle_events :
    (free table : View) (id : Text) (ids : List Text) (reply : Reply) (s : Gate)
    → s.signed_in ≡ true
    → s.pending ≡ []
    → section_needs_license free ≡ false
    → section_needs_license table ≡ true
    → table.section ≡ editor
    → required_license_ids table ≡ id ∷ ids
    → ((handle_events
          (navigate free ∷ navigate table ∷ resume 0 reply ∷ resume 0 refusal ∷ [])
          s).editor_blocked
        ≡ true)
      × ((handle_events
            (navigate free ∷ navigate table ∷ resume 1 refusal ∷ resume 0 reply ∷ [])
            s).editor_blocked
          ≡ false)
editor_blocked-handle_events free table id ids reply s m p n t e r =
    let waiting = both_navigated free table id ids s m p n t r in
    (
      rw (four_events, waiting) (release_first table (id ∷ ids) reply s e),
      rw (four_events, waiting) (refusal_first table (id ∷ ids) reply s e),
    )

-- A refused tab of the database blocks the others: where the section of the database is blocked and no
-- call waits, showing one of its tabs that needs no licence leaves it blocked once the call ends.
base_blocked-handle_events :
    (free : View) (reply : Reply) (s : Gate)
    → s.base_blocked ≡ true
    → s.pending ≡ []
    → free.section ≡ base
    → section_needs_license free ≡ false
    → (handle_events (navigate free ∷ resume 0 reply ∷ []) s).base_blocked ≡ true
unfolding handle_events
base_blocked-handle_events free reply s b p e n = elim (Bool-cases s.signed_in) [
  | inl m ↦ rw (m, p, n, e) b
  | inr m ↦ rw (m, p, n, e) b
]
