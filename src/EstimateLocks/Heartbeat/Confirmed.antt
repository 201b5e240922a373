-- ===== src/EstimateLocks/Heartbeat/Confirmed.antt =====
-- The estimates that are open after a heartbeat (`refreshOwnedEstimateLocks` of web/app.js).
use new_a.Common.{
  true, false, not, ◌&&◌, List, [], ◌∷◌, map, some, Text, ◌===◌, ===_iff, has, ◌≡◌, refl, sym, ap,
  ◌∙◌, arith, inl, inr, Bool-cases,
}
use new_a.EstimateLocks.{
  Lock, LockMap, OpenEstimate, open_key, find_open, Client, put, from_entries,
  is_persisted_estimate_id, is_mine, is_lost, kick_estimate_from_editor,
}
use new_a.EstimateLocks.Acquire.{Fetched}
use new_a.EstimateLocks.Acquire.Reported.{acquired_lem}
use new_a.EstimateLocks.Heartbeat.{renew_one, renew_each, refresh_owned_estimate_locks}
use new_a.EstimateLocks.Heartbeat.Kicks.{Kicked, kicked_lem}
use new_a.EstimateLocks.Polls.{AreDistinct}

-- An estimate with this identifier, whose other fields play no part.
abbrev pub with_id : Text → OpenEstimate
with_id y = record { id = y; object_id = [] }

is_lost_agree :
    (s t : Client) (server : LockMap) (y : Text)
    → t.me ≡ s.me
    → t.estimate_ids ≡ s.estimate_ids
    → find_open y t.open_estimates ≡ find_open y s.open_estimates
    → t.estimate_locks y ≡ s.estimate_locks y
    → is_lost t server (with_id y) ≡ is_lost s server (with_id y)
unfolding is_lost
is_lost_agree s t server y a b c d = rw (a, b, c, d) refl

is_lost_lem :
    (s : Client) (server : LockMap) (y : Text)
    → is_lost s server (with_id y) ≡ (
        is_persisted_estimate_id s y
        && is_mine s.me (s.estimate_locks y)
        && not (is_mine s.me (server y)))
unfolding is_lost
is_lost_lem s server y = refl

is_lost_mine :
    (s : Client) (server : LockMap) (y : Text)
    → is_mine s.me (server y) ≡ true
    → is_lost s server (with_id y) ≡ false
unfolding is_lost
is_lost_mine s server y h = rw h (ground arith)

put_other : (id y : Text) (lock : Lock) (m : LockMap) → id === y ≡ false → put id lock m y ≡ m y
unfolding put
put_other id y lock m h = rw h refl

-- A lock that the server confirms is lost neither before nor after it is stored.
is_lost-put :
    (s : Client) (server : LockMap) (id y : Text) (lock : Lock)
    → is_mine s.me (server id) ≡ true
    → is_lost (record s { estimate_locks = put id lock s.estimate_locks }) server (with_id y)
      ≡ is_lost s server (with_id y)
is_lost-put s server id y lock h = elim (Bool-cases (id === y)) [
  | inl same ↦
      let mine : is_mine s.me (server y) ≡ true =
        ap (λ x. is_mine s.me (server x)) (sym ((===_iff id y).0 same)) ∙ h in
      is_lost_mine (record s { estimate_locks = put id lock s.estimate_locks }) server y mine
      ∙ sym (is_lost_mine s server y mine)
  | inr other ↦
      is_lost_agree s (record s { estimate_locks = put id lock s.estimate_locks }) server y refl
        refl refl (put_other id y lock s.estimate_locks other)
]

-- What one round of the loop leaves.
record Renewed (server : LockMap) (user id : Text) (s after : Client) : Type 0 where
  distinct : AreDistinct after.open_estimates
  same_user : after.me ≡ some user
  members :
      (y : Text)
      → has (map open_key after.open_estimates) y
        ≡ (has (map open_key s.open_estimates) y && not (id === y && is_lost s server (with_id y)))
  losses :
      (y : Text)
      → has (map open_key after.open_estimates) y ≡ true
      → is_lost after server (with_id y) ≡ is_lost s server (with_id y)

module _ (server : LockMap) (fetch : Text → Fetched) (user : Text) where
  Renewed-same :
      (e : OpenEstimate) (s : Client)
      → AreDistinct s.open_estimates
      → s.me ≡ some user
      → is_lost s server (with_id e.id) ≡ false
      → Renewed server user e.id s s
  Renewed-same e s d m h = record {
    distinct = d;
    same_user = m;
    members = λ y. ground (arith, h, ===_iff e.id y);
    losses = λ y there. refl;
  }

  Renewed-put :
      (e : OpenEstimate) (s : Client) (lock : Lock)
      → AreDistinct s.open_estimates
      → s.me ≡ some user
      → is_mine s.me (server e.id) ≡ true
      → Renewed server user e.id s (record s { estimate_locks = put e.id lock s.estimate_locks })
  Renewed-put e s lock d m h = record {
    distinct = d;
    same_user = m;
    members = λ y. ground (arith, is_lost_mine s server e.id h, ===_iff e.id y);
    losses = λ y there. is_lost-put s server e.id y lock h;
  }

  Renewed-kick :
      (e : OpenEstimate) (s : Client)
      → AreDistinct s.open_estimates
      → s.me ≡ some user
      → is_lost s server (with_id e.id) ≡ true
      → Renewed server user e.id s (kick_estimate_from_editor e.id s)
  Renewed-kick e s d m h =
      let k : Kicked e.id user s (kick_estimate_from_editor e.id s) = kicked_lem e.id user s d m in
      record {
        distinct = k.left.distinct;
        same_user = k.same_user;
        members = λ y. ground (arith, h, k.left.members y, ===_iff e.id y);
        losses = λ y there.
            is_lost_agree s (kick_estimate_from_editor e.id s) server y (k.same_user ∙ sym m)
              k.same_estimates (k.left.others y (ground (arith, there, k.left.members y)))
              (k.other_locks y (ground (arith, there, k.left.members y)));
      }

  renewed_lem :
      (e : OpenEstimate) (s : Client)
      → AreDistinct s.open_estimates
      → s.me ≡ some user
      → Renewed server user e.id s (renew_one server fetch e s)
  unfolding renew_one
  renewed_lem e s d m = elim (Bool-cases (is_persisted_estimate_id s e.id)) [
    | inr session ↦ rw session (Renewed-same e s d m (rw (is_lost_lem s server e.id, session) refl))
    | inl persisted ↦ elim (Bool-cases (is_mine s.me (server e.id))) [
      | inl mine ↦ elim (acquired_lem e.id (fetch e.id) s) [
        | inl kept ↦
            rw (persisted, mine, kept) (Renewed-same e s d m (is_lost_mine s server e.id mine))
        | inr (lock, stored) ↦ rw (persisted, mine, stored) (Renewed-put e s lock d m mine)
      ]
      | inr foreign ↦ elim (Bool-cases (is_mine s.me (s.estimate_locks e.id))) [
        | inl owned ↦
            rw (persisted, foreign, owned)
              (Renewed-kick e s d m
                (rw (is_lost_lem s server e.id, persisted, owned, foreign) refl))
        | inr never ↦
            rw (persisted, foreign, never)
              (Renewed-same e s d m (rw (is_lost_lem s server e.id, persisted, never) refl))
      ]
    ]
  ]

  members-renew_each :
      (es : List OpenEstimate) (s : Client) (y : Text)
      → AreDistinct s.open_estimates
      → s.me ≡ some user
      → has (map open_key (renew_each server fetch es s).open_estimates) y ≡ (
          has (map open_key s.open_estimates) y
          && not (has (map open_key es) y && is_lost s server (with_id y)))
  unfolding renew_each has
  members-renew_each [] s y d m = ground arith
  members-renew_each (e ∷ es) s y d m =
      let r : Renewed server user e.id s (renew_one server fetch e s) = renewed_lem e s d m in
      ground (
        arith,
        members-renew_each es (renew_one server fetch e s) y r.distinct r.same_user,
        r.members y,
        r.losses y,
      )

-- A heartbeat closes the same estimates as the refreshes: where no identifier is open twice and a user
-- is signed in, the locks afterwards are the server's whatever the requests to renew them answer, and
-- an identifier is open exactly if it was and its lock is not one that was the user's by the old locks
-- and is not by the new ones.
pub refresh_owned_estimate_locks-open :
    (locks : List Lock) (fetch : Text → Fetched) (user : Text) (s : Client)
    → AreDistinct s.open_estimates
    → s.me ≡ some user
    → ((refresh_owned_estimate_locks (some locks) fetch s).estimate_locks ≡ from_entries locks)
      × ((y : Text)
          → has (map open_key (refresh_owned_estimate_locks (some locks) fetch s).open_estimates) y
            ≡ (has (map open_key s.open_estimates) y
                && not (is_lost s (from_entries locks) (with_id y))))
unfolding refresh_owned_estimate_locks
refresh_owned_estimate_locks-open locks fetch user s d m = rw m (
  refl,
  λ y. ground (arith, members-renew_each (from_entries locks) fetch user s.open_estimates s y d m),
)
