-- ===== src/EstimateLocks/Tests.antt =====
-- Locks of web/app.js at concrete states.
use new_a.Common.{
  true, not, ◌&&◌, List, [], ◌∷◌, map, some, if◌then◌else◌, Text, codes, ◌===◌, has, is_space, ◌≡◌,
  refl, arith,
}
use new_a.EstimateLocks.{
  Lock, open_key, Client, from_entries, is_lost, is_persisted_estimate_id,
  is_estimate_locked_by_other,
}
use new_a.EstimateLocks.Acquire.{Fetched, responded, restore_open_estimate_locks}
use new_a.EstimateLocks.Acquire.Reported.{restored}
use new_a.EstimateLocks.Acquire.Restored.{restore_open_estimate_locks-locks}
use new_a.EstimateLocks.Heartbeat.{refresh_owned_estimate_locks}
use new_a.EstimateLocks.Heartbeat.Confirmed.{with_id, refresh_owned_estimate_locks-open}
use new_a.EstimateLocks.Polls.Settled.{IsSettled, answer_all, answer_all-IsSettled}

abbrev lock : Text → Text → Lock
lock id user = record { estimate_id = id; user_id = user; user_name = user }

-- The estimates `a` and `b` are open, and the user `me` held the locks of both.
abbrev two_open : Client
two_open = record {
  me = some (codes "me");
  estimate_ids = codes "a" ∷ codes "b" ∷ [];
  open_estimates =
      record { id = codes "a"; object_id = codes "o" }
      ∷ record { id = codes "b"; object_id = codes "o" }
      ∷ [];
  editor_tab = codes "a";
  estimate_locks =
      from_entries (lock (codes "a") (codes "me") ∷ lock (codes "b") (codes "me") ∷ []);
  gsn_loaded = true;
  refreshes = 1;
}

-- Another user holds `a`.
abbrev answer : List Lock
answer = lock (codes "a") (codes "other") ∷ lock (codes "b") (codes "me") ∷ []

abbrev conflicts : Text → Fetched
conflicts id =
    responded 409
      (some (record { as_lock = lock [] []; error = []; lock = some (lock id (codes "other")) }))

closes_the_first : (answer_all 3 answer two_open).editor_tab ≡ codes "b"
unfolding answer_all ◌===◌
closes_the_first = refl

is_estimate_locked_by_other_after :
    is_estimate_locked_by_other (restore_open_estimate_locks conflicts two_open) (codes "a ") ≡ true
unfolding restore_open_estimate_locks is_estimate_locked_by_other is_space
is_estimate_locked_by_other_after = refl

answer_all-IsSettled_example :
    IsSettled two_open (from_entries answer) (answer_all 3 answer two_open)
unfolding has ◌===◌
answer_all-IsSettled_example =
    answer_all-IsSettled answer (codes "me") two_open 3 (refl, (refl, tt)) refl (ground arith)
      (ground arith)

refresh_owned_estimate_locks-open_example :
    ((refresh_owned_estimate_locks (some answer) conflicts two_open).estimate_locks
      ≡ from_entries answer)
    × ((y : Text)
        → has
            (map open_key
              (refresh_owned_estimate_locks (some answer) conflicts two_open).open_estimates)
            y
          ≡ (has (map open_key two_open.open_estimates) y
              && not (is_lost two_open (from_entries answer) (with_id y))))
unfolding has ◌===◌
refresh_owned_estimate_locks-open_example =
    refresh_owned_estimate_locks-open answer conflicts (codes "me") two_open (refl, (refl, tt)) refl

restore_open_estimate_locks-locks_example :
    ((restore_open_estimate_locks conflicts two_open).estimate_locks (codes "a") ≡ (
      if has (map open_key two_open.open_estimates) (codes "a")
        && is_persisted_estimate_id two_open (codes "a")
      then restored (conflicts (codes "a")) (two_open.estimate_locks (codes "a"))
      else two_open.estimate_locks (codes "a")))
    × ((restore_open_estimate_locks conflicts two_open).open_estimates ≡ two_open.open_estimates)
restore_open_estimate_locks-locks_example =
    restore_open_estimate_locks-locks conflicts two_open (codes "a")
