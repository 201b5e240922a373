-- ===== src/Opening/Shown.antt =====
-- The tab that is shown while estimates are opened (`openEstimateInEditor` of web/app.js).
pub mod Steps
use new_a.Common.{
  ℕ, zero, suc, Bool, true, false, not, ◌&&◌, ◌||◌, List, [], ◌∷◌, ◌++◌, map, Option, none, some,
  get_elem?, remove_at, find_index, leb, ◌==◌, if◌then◌else◌, Text, ◌===◌, ===_refl, ===_iff,
  is_nonempty, is_nonempty-trim-trim, trim, has, Outcome, out_of_fuel, thrown, returned, ◌≡◌, refl,
  sym, ap, ◌∙◌, arith, inl, inr, Bool-cases, Option-cases,
}
use new_a.EditorTabs.{buffer_tab}
use new_a.EstimateLocks.{Lock, OpenEstimate, open_key, Client, is_estimate_locked_by_other}
use new_a.EstimateLocks.Acquire.{
  Fetched, rejected, responded, Failure, acquire_estimate_lock, store_lock,
}
use new_a.Opening.{
  OpeningSession, Waiting, reopening, locking, fetching, showing, Answer, OpenEvent, click, finish,
  same_estimate_id, start_opening, continue_opening, handle_open, handle_opens, is_opening,
  lock_or_reopen, show_tab, reopened, opening_failed, conflict_or_failed, locked, fetched, pushed,
  finish_at, set_client, wait_for, lock_of,
}

-- The buffer, an open estimate, or the one that is being opened.
abbrev pub has_tab : OpeningSession → Bool
has_tab s =
    s.client.editor_tab === buffer_tab
    || has (map open_key s.client.open_estimates) s.client.editor_tab
    || is_opening s.opening s.client.editor_tab

abbrev pub is_plain : Text → Bool
is_plain id = same_estimate_id id id

abbrev pub opening_plain : Option Text → Bool → Bool
opening_plain none in_editor = true
opening_plain (some id) in_editor = is_plain id && in_editor

abbrev pub waits_plain : Waiting → Bool
waits_plain (reopening i id) = true
waits_plain (locking id) = is_plain id
waits_plain (fetching id) = is_plain id
waits_plain (showing id o) = true

abbrev pub all_plain : List Waiting → Bool
all_plain [] = true
all_plain (w ∷ ws) = waits_plain w && all_plain ws

-- The tab shown is there, an estimate is opened only in the editor, and no identifier that is waited
-- for is blank.
pub record IsSound (s : OpeningSession) : Type 0 where
  pub tab : has_tab s ≡ true
  pub opens : opening_plain s.opening s.in_editor ≡ true
  pub waits : all_plain s.waiting ≡ true

pub all_plain-append :
    (ws : List Waiting) (w : Waiting) → all_plain (ws ++ w ∷ []) ≡ (all_plain ws && waits_plain w)
all_plain-append [] w = ground arith
all_plain-append (v ∷ ws) w = ground (arith, all_plain-append ws w)

pub all_plain-remove_at :
    (i : ℕ) (ws : List Waiting) → all_plain ws ≡ true → all_plain (remove_at i ws) ≡ true
unfolding remove_at
all_plain-remove_at i [] h = refl
all_plain-remove_at zero (w ∷ ws) h = ground (arith, h)
all_plain-remove_at (suc i) (w ∷ ws) h = ground (arith, h, all_plain-remove_at i ws)

pub all_plain-get_elem? :
    (i : ℕ) (ws : List Waiting) (w : Waiting)
    → all_plain ws ≡ true
    → get_elem? ws i ≡ some w
    → waits_plain w ≡ true
all_plain-get_elem? i [] w h k = cc
all_plain-get_elem? zero (v ∷ ws) w h k = ground (arith, h, k)
all_plain-get_elem? (suc i) (v ∷ ws) w h k = ground (arith, h, k, all_plain-get_elem? i ws w)

pub has-get_elem? :
    (i : ℕ) (es : List OpenEstimate) (e : OpenEstimate)
    → get_elem? es i ≡ some e
    → has (map open_key es) e.id ≡ true
unfolding has
has-get_elem? i [] e k = cc
has-get_elem? zero (x ∷ es) e k = ground (arith, k, ===_refl e.id)
has-get_elem? (suc i) (x ∷ es) e k = ground (arith, k, has-get_elem? i es e)

pub has-opened :
    (es : List OpenEstimate) (e : OpenEstimate) (x : Text)
    → has (map open_key (es ++ e ∷ [])) x ≡ (has (map open_key es) x || e.id === x)
unfolding has
has-opened [] e x = ground arith
has-opened (y ∷ es) e x = ground (arith, has-opened es e x)

-- Only one estimate is being opened.
pub opening_other :
    (o : Option Text) (id tab : Text) → is_opening o id ≡ true → is_opening o tab ≡ (id === tab)
opening_other none id tab h = ground (arith, h)
opening_other (some x) id tab h = ap (λ y. y === tab) ((===_iff x id).0 h)

pub opening_in_editor :
    (o : Option Text) (b : Bool) (id : Text)
    → opening_plain o b ≡ true
    → is_opening o id ≡ true
    → b ≡ true
opening_in_editor none b id h k = ground (arith, k)
opening_in_editor (some x) b id h k = ground (arith, h)

pub plain_other :
    (id tab : Text) → is_plain id ≡ true → same_estimate_id tab id ≡ false → (id === tab) ≡ false
plain_other id tab h k = elim (Bool-cases (id === tab)) [
  | inl same ↦ ground (arith, h, k, ap (λ x. same_estimate_id x id) ((===_iff id tab).0 same))
  | inr other ↦ other
]

pub kept_tab :
    (s : OpeningSession)
    → IsSound s
    → is_opening s.opening s.client.editor_tab ≡ false
    → has_tab (record s { opening = none }) ≡ true
kept_tab s r h = ground (arith, r.tab, h)

pub IsSound-wait_for :
    (w : Waiting) (s : OpeningSession) → waits_plain w ≡ true → IsSound s → IsSound (wait_for w s)
IsSound-wait_for w s h r = record {
  tab = r.tab;
  opens = r.opens;
  waits = rw (all_plain-append s.waiting w, r.waits) h;
}

-- A client that differs in the locks alone.
pub record SameView (s : Client) (after : Client) : Type 0 where
  pub same_tab : after.editor_tab ≡ s.editor_tab
  pub same_open : after.open_estimates ≡ s.open_estimates

pub IsSound-set_client :
    (c : Client) (s : OpeningSession) → SameView s.client c → IsSound s → IsSound (set_client c s)
IsSound-set_client c s v r = record {
  tab = rw (v.same_tab, v.same_open) r.tab;
  opens = r.opens;
  waits = r.waits;
}

pub stored_lem : (id : Text) (o : Option Lock) (s : Client) → SameView s (store_lock id o s)
stored_lem id none s = record { same_tab = refl; same_open = refl }
stored_lem id (some l) s = record { same_tab = refl; same_open = refl }

unfoldable pub Granted : Client → Outcome Failure Client → Type 0
Granted s out_of_fuel = Unit
Granted s (thrown f) = Unit
Granted s (returned c) = SameView s c

pub granted_lem : (id : Text) (f : Fetched) (s : Client) → Granted s (acquire_estimate_lock id f s)
unfolding acquire_estimate_lock Granted
granted_lem id (rejected message) s = tt
granted_lem id (responded status none) s = elim (Bool-cases (status == 409)) [
  | inl conflict ↦ rw conflict tt
  | inr other ↦ elim (Bool-cases (leb 200 status && leb status 299)) [
    | inl ok ↦ rw (other, ok) (record { same_tab = refl; same_open = refl })
    | inr failed ↦ rw (other, failed) tt
  ]
]
granted_lem id (responded status (some p)) s = elim (Bool-cases (status == 409)) [
  | inl conflict ↦ rw conflict tt
  | inr other ↦ elim (Bool-cases (leb 200 status && leb status 299)) [
    | inl ok ↦ rw (other, ok) (record { same_tab = refl; same_open = refl })
    | inr failed ↦ rw (other, failed) tt
  ]
]
