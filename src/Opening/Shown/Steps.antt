-- ===== src/Opening/Shown/Steps.antt =====
-- The steps of `openEstimateInEditor` (web/app.js) and the tab that is shown.
use new_a.Common.{
  ℕ, Bool, true, List, [], ◌∷◌, Option, none, some, get_elem?, Text, ===_refl, is_nonempty,
  is_nonempty-trim-trim, trim, Outcome, out_of_fuel, thrown, returned, ◌≡◌, refl, ◌∙◌, arith, inl,
  inr, Bool-cases, Option-cases,
}
use new_a.EstimateLocks.{Lock, OpenEstimate, Client, is_estimate_locked_by_other}
use new_a.EstimateLocks.Acquire.{Failure}
use new_a.Opening.{
  OpeningSession, Waiting, reopening, locking, fetching, showing, Answer, OpenEvent, click, finish,
  same_estimate_id, start_opening, continue_opening, handle_open, handle_opens, is_opening,
  lock_or_reopen, show_tab, reopened, opening_failed, conflict_or_failed, locked, fetched, pushed,
  finish_at, set_client, lock_of,
}
use new_a.Opening.Shown.{
  is_plain, opening_plain, waits_plain, IsSound, Granted, all_plain-append, all_plain-remove_at,
  all_plain-get_elem?, has-get_elem?, has-opened, opening_other, opening_in_editor, plain_other,
  kept_tab, IsSound-wait_for, IsSound-set_client, stored_lem, granted_lem,
}

opening_shown :
    (o : Option Text) (b : Bool) → opening_plain o b ≡ true → opening_plain o true ≡ true
opening_shown none b h = refl
opening_shown (some id) b h = ground (arith, h)

IsSound-show_tab :
    (i : ℕ) (s : OpeningSession)
    → IsSound s
    → IsSound (show_tab (get_elem? s.client.open_estimates i) s)
IsSound-show_tab i s r = elim (Option-cases (get_elem? s.client.open_estimates i)) [
  | inl absent ↦ rw absent r
  | inr (e, found) ↦ rw found (record {
    tab = ground (arith, has-get_elem? i s.client.open_estimates e found);
    opens = opening_shown s.opening s.in_editor r.opens;
    waits = r.waits;
  })
]

IsSound-reopened :
    (i : ℕ) (id : Text) (a : Outcome Failure Client) (s : OpeningSession)
    → Granted s.client a
    → IsSound s
    → IsSound (reopened i id a s)
unfolding Granted
IsSound-reopened i id out_of_fuel s g r = r
IsSound-reopened i id (thrown f) s g r =
    IsSound-set_client _ s (stored_lem id (lock_of f) s.client) r
IsSound-reopened i id (returned c) s g r =
    IsSound-show_tab i (set_client c s) (IsSound-set_client c s g r)

IsSound-opening_failed :
    (id : Text) (s : OpeningSession)
    → is_plain id ≡ true
    → IsSound s
    → IsSound (opening_failed id s)
unfolding opening_failed
IsSound-opening_failed id s p r = elim (Bool-cases (is_opening s.opening id)) [
  | inl mine ↦
      let ed : s.in_editor ≡ true = opening_in_editor s.opening s.in_editor id r.opens mine in
      elim (Bool-cases (same_estimate_id s.client.editor_tab id)) [
        | inl same ↦ rw (mine, ed, same) (record { tab = refl; opens = refl; waits = r.waits })
        | inr other ↦
            rw (mine, ed, other)
              (record {
                tab = kept_tab s r (
                    opening_other s.opening id s.client.editor_tab mine
                    ∙ plain_other id s.client.editor_tab p other);
                opens = refl;
                waits = r.waits;
              })
      ]
  | inr foreign ↦ rw foreign r
]

IsSound-conflict_or_failed :
    (o : Option Lock) (id : Text) (s : OpeningSession)
    → is_plain id ≡ true
    → IsSound s
    → IsSound (conflict_or_failed o id s)
IsSound-conflict_or_failed (some l) id s p r =
    IsSound-set_client _ s (stored_lem id (some l) s.client) r
IsSound-conflict_or_failed none id s p r = IsSound-opening_failed id s p r

IsSound-locked :
    (id : Text) (a : Outcome Failure Client) (s : OpeningSession)
    → is_plain id ≡ true
    → Granted s.client a
    → IsSound s
    → IsSound (locked id a s)
unfolding Granted
IsSound-locked id out_of_fuel s p g r = r
IsSound-locked id (thrown f) s p g r = IsSound-conflict_or_failed (lock_of f) id s p r
IsSound-locked id (returned c) s p g r =
    IsSound-wait_for (fetching id) (set_client c s) p (IsSound-set_client c s g r)

IsSound-fetched :
    (id : Text) (o : Option Text) (s : OpeningSession)
    → is_plain id ≡ true
    → IsSound s
    → IsSound (fetched id o s)
IsSound-fetched id none s p r = r
IsSound-fetched id (some x) s p r = record {
  tab = ground (arith, ===_refl id);
  opens = rw p refl;
  waits = rw (all_plain-append s.waiting (showing id x), r.waits) refl;
}

IsSound-pushed :
    (id object_id : Text) (s : OpeningSession) → IsSound s → IsSound (pushed id object_id s)
IsSound-pushed id object_id s r = elim (Bool-cases (is_opening s.opening id)) [
  | inl mine ↦
      let e : OpenEstimate = record { id = id; object_id = object_id } in
      let tab = s.client.editor_tab in
      rw mine (record {
        tab = ground (
          arith,
          r.tab,
          has-opened s.client.open_estimates e tab,
          opening_other s.opening id tab mine,
        );
        opens = refl;
        waits = r.waits;
      })
  | inr foreign ↦ rw foreign r
]

IsSound-continue_opening :
    (w : Waiting) (a : Answer) (s : OpeningSession)
    → waits_plain w ≡ true
    → IsSound s
    → IsSound (continue_opening w a s)
unfolding continue_opening
IsSound-continue_opening (reopening i id) a s p r =
    IsSound-reopened i id _ s (granted_lem id a.lock s.client) r
IsSound-continue_opening (locking id) a s p r =
    IsSound-locked id _ s p (granted_lem id a.lock s.client) r
IsSound-continue_opening (fetching id) a s p r = IsSound-fetched id a.object_id s p r
IsSound-continue_opening (showing id object_id) a s p r = IsSound-pushed id object_id s r

IsSound-lock_or_reopen :
    (o : Option ℕ) (id : Text) (s : OpeningSession)
    → is_plain id ≡ true
    → IsSound s
    → IsSound (lock_or_reopen o id s)
IsSound-lock_or_reopen none id s p r = IsSound-wait_for (locking id) s p r
IsSound-lock_or_reopen (some i) id s p r = IsSound-wait_for (reopening i id) s refl r

trimmed_plain : (x : Text) → is_nonempty (trim x) ≡ true → is_plain (trim x) ≡ true
unfolding same_estimate_id
trimmed_plain x h = ground (arith, is_nonempty-trim-trim x, h, ===_refl (trim (trim x)))

IsSound-start_opening : (x : Text) (s : OpeningSession) → IsSound s → IsSound (start_opening x s)
unfolding start_opening
IsSound-start_opening x s r = elim (Bool-cases (is_nonempty (trim x))) [
  | inr blank ↦ rw blank r
  | inl full ↦ elim (Bool-cases (is_estimate_locked_by_other s.client (trim x))) [
    | inl refused ↦ rw (full, refused) r
    | inr free ↦ rw (full, free) (IsSound-lock_or_reopen _ (trim x) s (trimmed_plain x full) r)
  ]
]

IsSound-finish_at :
    (o : Option Waiting) (i : ℕ) (a : Answer) (s : OpeningSession)
    → get_elem? s.waiting i ≡ o
    → IsSound s
    → IsSound (finish_at o i a s)
IsSound-finish_at none i a s h r = r
IsSound-finish_at (some w) i a s h r =
    IsSound-continue_opening w a _ (all_plain-get_elem? i s.waiting w r.waits h)
      (record { tab = r.tab; opens = r.opens; waits = all_plain-remove_at i s.waiting r.waits })

IsSound-handle_open : (e : OpenEvent) (s : OpeningSession) → IsSound s → IsSound (handle_open e s)
unfolding handle_open
IsSound-handle_open (click x) s r = IsSound-start_opening x s r
IsSound-handle_open (finish i a) s r = IsSound-finish_at _ i a s refl r

-- While estimates are opened, in whatever order the answers come and whatever they are, the tab
-- shown is the buffer, an open estimate or the one that is being opened: from a state where that
-- holds, an estimate is being opened only in the editor, and no identifier waited for is blank, it
-- holds after every sequence of events.
pub handle_opens-IsSound :
    (es : List OpenEvent) (s : OpeningSession) → IsSound s → IsSound (handle_opens es s)
unfolding handle_opens
handle_opens-IsSound [] s r = r
handle_opens-IsSound (e ∷ es) s r =
    handle_opens-IsSound es (handle_open e s) (IsSound-handle_open e s r)
