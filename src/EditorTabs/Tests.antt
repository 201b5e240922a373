-- ===== src/EditorTabs/Tests.antt =====
-- Closing tabs of web/app.js at concrete states.
use new_a.Common.{true, false, [], ◌∷◌, ◌≡◌, refl, if◌then◌else◌, codes, ◌===◌, has}
use new_a.EditorTabs.{Tabs, close_estimate}
use new_a.EditorTabs.Neighbour.{neighbour, close_estimate-neighbour}
use new_a.EditorTabs.Overlap.{begin, resume, handle_all, open_session, open_ids-handle_all}

abbrev three : Tabs
three = record { open_ids = codes "a" ∷ codes "b" ∷ codes "c" ∷ []; editor_tab = codes "c" }

closing_the_last :
    close_estimate true (codes "c") three
    ≡ record { open_ids = codes "a" ∷ codes "b" ∷ []; editor_tab = codes "b" }
unfolding close_estimate
closing_the_last = refl

closings_apart :
    (handle_all
      (begin (codes "a") ∷ resume ∷ begin (codes "b") ∷ resume ∷ [])
      (open_session three.open_ids (codes "c"))).tabs.open_ids
    ≡ codes "c" ∷ []
unfolding handle_all
closings_apart = refl

close_estimate-neighbour_example :
    (close_estimate true (codes "c") three ≡ record {
      open_ids = codes "a" ∷ codes "b" ∷ [];
      editor_tab =
          if codes "c" === codes "c" then neighbour (codes "a" ∷ codes "b" ∷ []) [] else codes "c";
    })
    × (close_estimate false (codes "c") three ≡ three)
unfolding has ◌===◌
close_estimate-neighbour_example =
    close_estimate-neighbour (codes "a" ∷ codes "b" ∷ []) [] (codes "c") (codes "c") refl

open_ids-handle_all_example :
    (handle_all
      (begin (codes "a") ∷ begin (codes "b") ∷ resume ∷ resume ∷ [])
      (open_session three.open_ids (codes "c"))).tabs.open_ids
    ≡ codes "b" ∷ []
unfolding ◌===◌
open_ids-handle_all_example =
    open_ids-handle_all (codes "a") (codes "b") (codes "c") (codes "c") [] refl
