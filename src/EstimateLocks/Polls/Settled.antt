-- ===== src/EstimateLocks/Polls/Settled.antt =====
-- A chain of refreshes that all get the same answer (`refreshEstimateLocks` of web/app.js): each
-- closes the first estimate whose lock is lost and starts the next one.
use new_a.Common.{
  ℕ, zero, suc, ◌+◌, ◌-◌, ◌≤◌, true, false, not, List, [], ◌∷◌, map, none, some, length, filter,
  find, if◌then◌else◌, ◌==◌, Text, ◌===◌, ===_iff, remove_at, has, ◌≡◌, refl, sym, ap, ◌∙◌, arith,
  inl, inr, Option-cases, Bool-cases,
}
use new_a.EstimateLocks.{
  Lock, LockMap, from_entries, OpenEstimate, open_key, Client, kick_estimate_from_editor, is_lost,
  answer_refresh,
}
use new_a.EstimateLocks.Polls.{AreDistinct, Removed, removed_lem}
use new_a.EstimateLocks.Polls.Kicked.{
  kicked, kick_found, find-true, filter_all, filter_agree, is_lost-kicked,
}

-- The estimates whose locks `next` does not confirm are closed, and nothing else.
pub record IsSettled (s : Client) (next : LockMap) (after : Client) : Type 0 where
  pub refreshes_ended : after.refreshes ≡ 0
  pub locks_stored : after.estimate_locks ≡ next
  pub kept_open : after.open_estimates ≡ filter (λ e. not (is_lost s next e)) s.open_estimates

-- `n` answers that all carry the same locks, while a refresh waits for one.
unfoldable pub answer_all : ℕ → List Lock → Client → Client
unfolding answer_refresh
answer_all zero locks s = s
answer_all (suc n) locks s =
    let rest = answer_all n locks (answer_refresh (some locks) s) in
    if s.refreshes == 0 then s else rest

abbrev answered : Client → Client
answered s = record s { refreshes = s.refreshes - 1 }

answer_all_ended :
    (n : ℕ) (locks : List Lock) (s : Client) → s.refreshes ≡ 0 → answer_all n locks s ≡ s
unfolding answer_all
answer_all_ended zero locks s h = refl
answer_all_ended (suc n) locks s h = rw h refl

answer_all_waits :
    (n : ℕ) (locks : List Lock) (s : Client)
    → 1 ≤ s.refreshes
    → answer_all (suc n) locks s ≡ answer_all n locks (answer_refresh (some locks) s)
unfolding answer_all
answer_all_waits n locks s h = ground (arith, h)

answer_refresh_lost :
    (locks : List Lock) (s : Client) (e : OpenEstimate)
    → find (is_lost s (from_entries locks)) s.open_estimates ≡ some e
    → answer_refresh (some locks) s ≡ kick_estimate_from_editor e.id (answered s)
unfolding answer_refresh
answer_refresh_lost locks s e h = rw h refl

answer_refresh_confirmed :
    (locks : List Lock) (s : Client)
    → find (is_lost s (from_entries locks)) s.open_estimates ≡ none
    → answer_refresh (some locks) s ≡ record (answered s) { estimate_locks = from_entries locks }
unfolding answer_refresh
answer_refresh_confirmed locks s h = rw h refl

is_lost-answered :
    (s : Client) (next : LockMap) (x : OpenEstimate)
    → is_lost (answered s) next x ≡ is_lost s next x
unfolding is_lost
is_lost-answered s next x = refl

filter-kicked :
    (s : Client) (next : LockMap) (e : OpenEstimate) (r : Removed s.open_estimates e)
    → is_lost s next e ≡ true
    → filter
        (λ x. not (is_lost (kicked r.index e.id (answered s)) next x))
        (remove_at r.index s.open_estimates)
      ≡ filter (λ x. not (is_lost s next x)) s.open_estimates
filter-kicked s next e r h =
    filter_agree (λ x. not (is_lost (kicked r.index e.id (answered s)) next x))
      (λ x. not (is_lost s next x)) (remove_at r.index s.open_estimates)
      (λ x there.
        ap not (is_lost-kicked (answered s) next e x r (apart x there) ∙ is_lost-answered s next x))
    ∙ r.others (λ x. not (is_lost s next x)) (ap not h)
  where
    apart :
        (x : OpenEstimate)
        → has (map open_key (remove_at r.index s.open_estimates)) x.id ≡ true
        → e.id === x.id ≡ false
    apart x there = ground (arith, there, r.gone, ===_iff e.id x.id)

is_lost_stored :
    (s : Client) (next : LockMap) (x : OpenEstimate)
    → is_lost (record (answered s) { estimate_locks = next }) next x ≡ false
unfolding is_lost
is_lost_stored s next x = ground arith

filter_stored :
    (s : Client) (next : LockMap) (es : List OpenEstimate)
    → filter (λ x. not (is_lost (record (answered s) { estimate_locks = next }) next x)) es ≡ es
filter_stored s next [] = refl
filter_stored s next (x ∷ xs) = ground (arith, is_lost_stored s next x, filter_stored s next xs)

module _ (locks : List Lock) (user : Text) where
  unfoldable Settles : ℕ → Type 0
  Settles n =
      (s : Client)
      → AreDistinct s.open_estimates
      → s.me ≡ some user
      → 1 ≤ s.refreshes
      → length s.open_estimates + s.refreshes ≤ n
      → IsSettled s (from_entries locks) (answer_all n locks s)

  settle_lost :
      (n : ℕ) (s : Client) (e : OpenEstimate)
      → Settles n
      → AreDistinct s.open_estimates
      → s.me ≡ some user
      → 1 ≤ s.refreshes
      → length s.open_estimates + s.refreshes ≤ suc n
      → find (is_lost s (from_entries locks)) s.open_estimates ≡ some e
      → IsSettled s (from_entries locks) (answer_all n locks (answer_refresh (some locks) s))
  unfolding Settles
  settle_lost n s e rec d m h k lost =
      let r : Removed s.open_estimates e = removed_lem s.open_estimates _ e d lost in
      let rest : IsSettled (kicked r.index e.id (answered s)) (from_entries locks)
          (answer_all n locks (kicked r.index e.id (answered s))) =
        rec (kicked r.index e.id (answered s)) r.distinct m (omega arith)
          (omega (arith, h, k, r.shorter)) in
      rw (answer_refresh_lost locks s e lost, kick_found (answered s) e.id user r.index r.found m)
        record {
          refreshes_ended = rest.refreshes_ended;
          locks_stored = rest.locks_stored;
          kept_open =
              rest.kept_open
              ∙ filter-kicked s (from_entries locks) e r (find-true _ s.open_estimates e lost);
        }

  settle_confirmed :
      (n : ℕ) (s : Client)
      → Settles n
      → AreDistinct s.open_estimates
      → s.me ≡ some user
      → length s.open_estimates + s.refreshes ≤ suc n
      → find (is_lost s (from_entries locks)) s.open_estimates ≡ none
      → IsSettled s (from_entries locks) (answer_all n locks (answer_refresh (some locks) s))
  unfolding Settles
  settle_confirmed n s rec d m k confirmed =
      let stored : Client = record (answered s) { estimate_locks = from_entries locks } in
      let all_kept = filter_all (is_lost s (from_entries locks)) s.open_estimates confirmed in
      rw (answer_refresh_confirmed locks s confirmed) (elim (Bool-cases (stored.refreshes == 0)) [
        | inl ended ↦ rw (answer_all_ended n locks stored (ground (arith, ended))) record {
          refreshes_ended = ground (arith, ended);
          locks_stored = refl;
          kept_open = sym all_kept;
        }
        | inr waiting ↦
            let rest : IsSettled stored (from_entries locks) (answer_all n locks stored) =
              rec stored d m (ground (arith, waiting)) (ground (arith, k, waiting)) in
            record {
              refreshes_ended = rest.refreshes_ended;
              locks_stored = rest.locks_stored;
              kept_open =
                  rest.kept_open
                  ∙ filter_stored s (from_entries locks) s.open_estimates
                  ∙ sym all_kept;
            }
      ])

  settle : (n : ℕ) → Settles n
  unfolding Settles
  settle zero s d m h k = absurd (omega (arith, h, k))
  settle (suc n) s d m h k =
      elim (Option-cases (find (is_lost s (from_entries locks)) s.open_estimates)) [
        | inl confirmed ↦
            rw (answer_all_waits n locks s h) (settle_confirmed n s (settle n) d m k confirmed)
        | inr (e, lost) ↦
            rw (answer_all_waits n locks s h) (settle_lost n s e (settle n) d m h k lost)
      ]

-- Refreshes settle: where no identifier is open twice, a user is signed in, at least one refresh waits
-- and each answer carries the same locks, as many answers as there are open estimates and waiting
-- refreshes end all refreshes. Then the locks are those of the answer, and exactly those open
-- persisted open estimates are closed that were the user's by the old locks and are not by the new ones.
pub answer_all-IsSettled :
    (locks : List Lock) (user : Text) (s : Client) (n : ℕ)
    → AreDistinct s.open_estimates
    → s.me ≡ some user
    → 1 ≤ s.refreshes
    → length s.open_estimates + s.refreshes ≤ n
    → IsSettled s (from_entries locks) (answer_all n locks s)
unfolding Settles
answer_all-IsSettled locks user s n d m h k = settle locks user n s d m h k
