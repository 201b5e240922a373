-- ===== src/EstimateLocks/Polls/Kicked.antt =====
-- Closing the first estimate whose lock is lost (`kickEstimateFromEditor` of web/app.js).
use new_a.Common.{
  ℕ, suc, Bool, true, false, not, List, [], ◌∷◌, map, none, some, filter, find, if◌then◌else◌, Text,
  ◌===◌, ===_iff, find_index, remove_at, has, ◌≡◌, refl, arith, inl, inr, Bool-cases,
}
use new_a.EditorTabs.{next_tab, or_kept}
use new_a.EstimateLocks.{
  LockMap, drop_lock, OpenEstimate, open_key, Client, kick_estimate_from_editor, is_lost,
}
use new_a.EstimateLocks.Polls.{Removed}

-- The state once the estimate at `index` is closed and the next refresh waits.
abbrev pub kicked : ℕ → Text → Client → Client
kicked index id s =
    let left = remove_at index s.open_estimates in
    record s {
      open_estimates = left;
      estimate_locks = drop_lock id s.estimate_locks;
      editor_tab =
          if s.editor_tab === id
          then or_kept (next_tab index (map open_key left)) s.editor_tab
          else s.editor_tab;
      gsn_loaded = false;
      refreshes = suc s.refreshes;
    }

pub kick_found :
    (s : Client) (id user : Text) (i : ℕ)
    → find_index (λ e. e.id === id) s.open_estimates ≡ some i
    → s.me ≡ some user
    → kick_estimate_from_editor id s ≡ kicked i id s
unfolding kick_estimate_from_editor
kick_found s id user i h k = rw (h, k) refl

pub find-true :
    (p : OpenEstimate → Bool) (es : List OpenEstimate) (e : OpenEstimate)
    → find p es ≡ some e
    → p e ≡ true
find-true p [] e k = cc
find-true p (x ∷ xs) e k = elim (Bool-cases (p x)) [
  | inl here ↦ ground (arith, k, here)
  | inr later ↦ ground (arith, k, later, find-true p xs e)
]

pub filter_all :
    (p : OpenEstimate → Bool) (es : List OpenEstimate)
    → find p es ≡ none
    → filter (λ x. not (p x)) es ≡ es
filter_all p [] k = refl
filter_all p (x ∷ xs) k = ground (arith, k, filter_all p xs)

pub filter_agree :
    (p q : OpenEstimate → Bool) (es : List OpenEstimate)
    → ((x : OpenEstimate) → has (map open_key es) x.id ≡ true → p x ≡ q x)
    → filter p es ≡ filter q es
unfolding has
filter_agree p q [] h = refl
filter_agree p q (x ∷ xs) h = ground (
  arith,
  h x (ground (arith, ===_iff x.id x.id)),
  filter_agree p q xs (λ y k. h y (ground (arith, k))),
)

pub is_lost-kicked :
    (s : Client) (next : LockMap) (e x : OpenEstimate) (r : Removed s.open_estimates e)
    → e.id === x.id ≡ false
    → is_lost (kicked r.index e.id s) next x ≡ is_lost s next x
unfolding is_lost drop_lock
is_lost-kicked s next e x r h = rw (r.still_found x.id h, h) refl
