-- ===== src/Opening/Twice.antt =====
-- Two openings of the same estimate (`openEstimateInEditor` of web/app.js).
use new_a.Common.{
  ℕ, Bool, true, false, List, [], ◌∷◌, ◌++◌, map, Option, none, some, Text, ===_refl, is_nonempty,
  trim, get_elem?, remove_at, ◌≡◌, refl, ap, ◌∙◌,
}
use new_a.EstimateLocks.{OpenEstimate, open_key}
use new_a.EstimateLocks.Acquire.{responded}
use new_a.Opening.{
  OpeningSession, Answer, OpenEvent, click, finish, handle_open, handle_opens, continue_opening,
  Waiting, locking, fetching, showing,
}

-- The lock is granted without a payload, and the estimate fetched.
abbrev pub well : Answer
well = record { lock = responded 200 none; object_id = some [] }

-- The second click comes while the first one waits for the lock, and its answers come after the first
-- one has ended.
abbrev pub late_second : Text → List OpenEvent
late_second id =
    click id
    ∷ click id
    ∷ finish 0 well
    ∷ finish 1 well
    ∷ finish 1 well
    ∷ finish 0 well
    ∷ finish 0 well
    ∷ finish 0 well
    ∷ []

abbrev pub at_state :
    Option Text → List OpenEstimate → Option Text → Text → Bool → List Waiting → OpeningSession
at_state me es opening tab in_editor waiting = record {
  client = record {
    me = me;
    estimate_ids = [];
    open_estimates = es;
    editor_tab = tab;
    estimate_locks = λ id. none;
    gsn_loaded = true;
    refreshes = 0;
  };
  opening = opening;
  in_editor = in_editor;
  waiting = waiting;
}

abbrev pub idle : Option Text → Text → OpeningSession
idle me tab = at_state me [] none tab false []

abbrev pub open_keys : OpeningSession → List Text
open_keys s = map open_key s.client.open_estimates

abbrev opened : Text → OpenEstimate
opened id = record { id = id; object_id = [] }

module _ (id : Text) (me : Option Text) where
  clicked :
      (tab : Text) (ws : List Waiting)
      → trim id ≡ id
      → is_nonempty id ≡ true
      → handle_open (click id) (at_state me [] none tab false ws)
        ≡ at_state me [] none tab false (ws ++ locking id ∷ [])
  unfolding handle_open
  clicked tab ws h k = rw (h, k) refl

  granted :
      (es : List OpenEstimate) (o : Option Text) (tab : Text) (ed : Bool) (ws : List Waiting)
      → continue_opening (locking id) well (at_state me es o tab ed ws)
        ≡ at_state me es o tab ed (ws ++ fetching id ∷ [])
  unfolding continue_opening
  granted es o tab ed ws = refl

  loaded :
      (es : List OpenEstimate) (o : Option Text) (tab : Text) (ed : Bool) (ws : List Waiting)
      → continue_opening (fetching id) well (at_state me es o tab ed ws)
        ≡ at_state me es (some id) id true (ws ++ showing id [] ∷ [])
  unfolding continue_opening
  loaded es o tab ed ws = refl

  shown :
      (es : List OpenEstimate) (ws : List Waiting)
      → continue_opening (showing id []) well (at_state me es (some id) id true ws)
        ≡ at_state me (es ++ opened id ∷ []) none id true ws
  unfolding continue_opening
  shown es ws = rw (===_refl id) refl

  finished :
      (i : ℕ) (s : OpeningSession) (w : Waiting)
      → get_elem? s.waiting i ≡ some w
      → handle_open (finish i well) s
        ≡ continue_opening w well (record s { waiting = remove_at i s.waiting })
  unfolding handle_open
  finished i s w h = rw h refl

  step :
      (e : OpenEvent) (es : List OpenEvent) (s after : OpeningSession)
      → handle_open e s ≡ after
      → handle_opens (e ∷ es) s ≡ handle_opens es after
  unfolding handle_opens
  step e es s after h = ap (handle_opens es) h

  ended : (s : OpeningSession) → handle_opens [] s ≡ s
  unfolding handle_opens
  ended s = refl

  pushed_twice :
      (tab : Text)
      → handle_opens
          (finish 0 well
            ∷ finish 1 well
            ∷ finish 1 well
            ∷ finish 0 well
            ∷ finish 0 well
            ∷ finish 0 well
            ∷ [])
          (at_state me [] none tab false (locking id ∷ locking id ∷ []))
        ≡ at_state me (opened id ∷ opened id ∷ []) none id true []
  unfolding remove_at
  pushed_twice tab =
      let l = locking id in
      let f = fetching id in
      let w = showing id [] in
      let one = opened id ∷ [] in
      let s0 : OpeningSession = at_state me [] none tab false (l ∷ l ∷ []) in
      let s1 : OpeningSession = at_state me [] none tab false (l ∷ f ∷ []) in
      let s2 : OpeningSession = at_state me [] (some id) id true (l ∷ w ∷ []) in
      let s3 : OpeningSession = at_state me one none id true (l ∷ []) in
      let s4 : OpeningSession = at_state me one none id true (f ∷ []) in
      let s5 : OpeningSession = at_state me one (some id) id true (w ∷ []) in
      let s6 : OpeningSession = at_state me (opened id ∷ opened id ∷ []) none id true [] in
      step (finish 0 well) _ s0 s1 (finished 0 s0 l refl ∙ granted [] none tab false (l ∷ []))
      ∙ step (finish 1 well) _ s1 s2 (finished 1 s1 f refl ∙ loaded [] none tab false (l ∷ []))
      ∙ step (finish 1 well) _ s2 s3 (finished 1 s2 w refl ∙ shown [] (l ∷ []))
      ∙ step (finish 0 well) _ s3 s4 (finished 0 s3 l refl ∙ granted one none id true [])
      ∙ step (finish 0 well) _ s4 s5 (finished 0 s4 f refl ∙ loaded one none id true [])
      ∙ step (finish 0 well) _ s5 s6 (finished 0 s5 w refl ∙ shown one [])
      ∙ ended s6

-- An estimate can be open twice: where no estimate is open, a second click on the same one while the
-- first waits for its lock opens it again, if its answers come after the first one has ended.
pub open_estimates-handle_opens :
    (id tab : Text) (me : Option Text)
    → trim id ≡ id
    → is_nonempty id ≡ true
    → open_keys (handle_opens (late_second id) (idle me tab)) ≡ id ∷ id ∷ []
open_estimates-handle_opens id tab me h k = ap open_keys (
    step id me (click id) _ (idle me tab) _ (clicked id me tab [] h k)
    ∙ step id me (click id) _ (at_state me [] none tab false (locking id ∷ [])) _
        (clicked id me tab (locking id ∷ []) h k)
    ∙ pushed_twice id me tab)
