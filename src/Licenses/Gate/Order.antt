-- ===== src/Licenses/Gate/Order.antt =====
-- Gates whose answers come late (`applyLicenseGate` of web/app.js).
use mathlib.Core.Path.{subst}
use new_a.Common.{
  ℕ, zero, suc, ◌<◌, Bool, true, false, ◌&&◌, ◌||◌, leb, List, [], ◌∷◌, none, some, get_elem?,
  remove_at, ◌==◌, ◌≡◌, refl, ap, ◌∙◌, arith, inl, inr, Option-cases, Bool-cases,
}
use new_a.Licenses.Gate.{
  Blocked, Reply, failed, replied, Request, no_user, release, ask, Pending, releasing, syncing,
  renewing, Gate, finish_sync, put_reply, continue_with, if_latest, GateEvent, resume, handle_event,
  handle_events,
}

-- What the user sees of the gate, and whether the licences are renewed.
pub record Shown : Type 0 where
  pub base_blocked : Bool
  pub editor_blocked : Bool
  pub timer_runs : Bool

abbrev pub shown : Gate → Shown
shown s = record {
  base_blocked = s.base_blocked;
  editor_blocked = s.editor_blocked;
  timer_runs = s.timer_runs;
}

-- No call waits that may change what is shown: each is a renewal or a gate older than `version`.
abbrev IsOld : ℕ → Pending → Type 0
IsOld version (releasing clears) = ⊥
IsOld version (syncing v request) = v < version
IsOld version (renewing request) = Unit

abbrev pub AreOld : ℕ → List Pending → Type 0
AreOld version [] = Unit
AreOld version (p ∷ ps) = IsOld version p × AreOld version ps

-- Answers to waiting calls, and nothing else.
abbrev pub answers : List (ℕ × Reply) → List GateEvent
answers [] = []
answers ((i, reply) ∷ rest) = resume i reply ∷ answers rest

AreOld-remove_at :
    (version i : ℕ) (ps : List Pending) → AreOld version ps → AreOld version (remove_at i ps)
unfolding remove_at
AreOld-remove_at version i [] h = tt
AreOld-remove_at version zero (p ∷ ps) h = h.1
AreOld-remove_at version (suc i) (p ∷ ps) h = (h.0, AreOld-remove_at version i ps h.1)

some_injective : {p q : Pending} → some p ≡ some q → p ≡ q
some_injective h = cc

IsOld-get_elem? :
    (version i : ℕ) (ps : List Pending) (p : Pending)
    → AreOld version ps
    → get_elem? ps i ≡ some p
    → IsOld version p
IsOld-get_elem? version i [] p h k = cc
IsOld-get_elem? version zero (q ∷ ps) p h k = subst (IsOld version) (some_injective k) h.0
IsOld-get_elem? version (suc i) (q ∷ ps) p h k = IsOld-get_elem? version i ps p h.1 k

-- The lists of licences change, and nothing that decides or shows anything.
record Kept (s after : Gate) : Type 0 where
  same_shown : shown after ≡ shown s
  same_version : after.version ≡ s.version
  same_pending : after.pending ≡ s.pending

Kept-refl : (s : Gate) → Kept s s
Kept-refl s = record { same_shown = refl; same_version = refl; same_pending = refl }

Kept-finish_sync :
    (request : Request) (reply : Reply) (s : Gate) → Kept s (finish_sync request reply s).1
unfolding finish_sync put_reply
Kept-finish_sync no_user reply s = Kept-refl s
Kept-finish_sync (release true) reply s = record {
  same_shown = refl;
  same_version = refl;
  same_pending = refl;
}
Kept-finish_sync (release false) reply s = Kept-refl s
Kept-finish_sync (ask ids) failed s = record {
  same_shown = refl;
  same_version = refl;
  same_pending = refl;
}
Kept-finish_sync (ask ids) (replied status denied blocked error held) s =
    elim (Bool-cases (status == 403 || denied)) [
      | inl refused ↦
          rw refused record { same_shown = refl; same_version = refl; same_pending = refl }
      | inr granted ↦ elim (Bool-cases (leb 200 status && leb status 299)) [
        | inl ok ↦
            rw (granted, ok) record { same_shown = refl; same_version = refl; same_pending = refl }
        | inr broken ↦
            rw (granted, broken)
              record { same_shown = refl; same_version = refl; same_pending = refl }
      ]
    ]

Kept-if_latest :
    (version : ℕ) (o : List Blocked × Gate) (s : Gate)
    → version < s.version
    → Kept s (o.1)
    → Kept s (if_latest version o)
Kept-if_latest version (blocked, after) s h k = ground (arith, h, k.same_version, k)

Kept-continue_with :
    (p : Pending) (reply : Reply) (s : Gate) → IsOld s.version p → Kept s (continue_with p reply s)
unfolding continue_with
Kept-continue_with (releasing clears) reply s h = absurd h
Kept-continue_with (syncing version request) reply s h =
    Kept-if_latest version (finish_sync request reply s) s h (Kept-finish_sync request reply s)
Kept-continue_with (renewing request) reply s h = Kept-finish_sync request reply s

resumed_nothing :
    (i : ℕ) (reply : Reply) (s : Gate)
    → get_elem? s.pending i ≡ none
    → handle_event (resume i reply) s ≡ s
unfolding handle_event
resumed_nothing i reply s h = rw h refl

pub resumed_call :
    (i : ℕ) (reply : Reply) (s : Gate) (p : Pending)
    → get_elem? s.pending i ≡ some p
    → handle_event (resume i reply) s
      ≡ continue_with p reply (record s { pending = remove_at i s.pending })
unfolding handle_event
resumed_call i reply s p h = rw h refl

-- Where all calls that wait are renewals and gates of sections that need licences, each of which
-- another gate has followed, their answers leave what is shown as it is, in whatever order and number
-- they come. A gate of a section without licences is not among the calls that may wait.
pub shown-handle_events :
    (s : Gate) (rest : List (ℕ × Reply))
    → AreOld s.version s.pending
    → shown (handle_events (answers rest) s) ≡ shown s
unfolding handle_events
shown-handle_events s [] h = refl
shown-handle_events s ((i, reply) ∷ rest) h = elim (Option-cases (get_elem? s.pending i)) [
  | inl nothing ↦
      ap (λ t. shown (handle_events (answers rest) t)) (resumed_nothing i reply s nothing)
      ∙ shown-handle_events s rest h
  | inr (p, waits) ↦
      let s1 : Gate = record s { pending = remove_at i s.pending } in
      let k : Kept s1 (continue_with p reply s1) =
        Kept-continue_with p reply s1 (IsOld-get_elem? s.version i s.pending p h waits) in
      ap (λ t. shown (handle_events (answers rest) t)) (resumed_call i reply s p waits)
      ∙ shown-handle_events (continue_with p reply s1) rest
          (rw (k.same_version, k.same_pending) (AreOld-remove_at s.version i s.pending h))
      ∙ k.same_shown
]
