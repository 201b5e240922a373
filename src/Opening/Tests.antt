-- ===== src/Opening/Tests.antt =====
-- Opening estimates in the editor of web/app.js at concrete states.
use new_a.Common.{none, some, [], ◌∷◌, codes, trim, is_space, ◌===◌, find_index, ◌≡◌, refl}
use new_a.EditorTabs.{buffer_tab}
use new_a.Opening.{click, finish, handle_opens}
use new_a.Opening.Shown.{IsSound}
use new_a.Opening.Shown.Steps.{handle_opens-IsSound}
use new_a.Opening.Twice.{idle, late_second, open_keys, well, open_estimates-handle_opens}

-- Blanks around an identifier do not count.
opens_once :
    open_keys (
      handle_opens
        (click (codes " e ") ∷ finish 0 well ∷ finish 0 well ∷ finish 0 well ∷ [])
        (idle none buffer_tab))
    ≡ codes "e" ∷ []
unfolding trim is_space find_index ◌===◌ handle_opens
opens_once = refl

-- A click on an estimate that is open opens nothing.
opens_again :
    open_keys (
      handle_opens
        (click (codes "e")
          ∷ finish 0 well
          ∷ finish 0 well
          ∷ finish 0 well
          ∷ click (codes "e")
          ∷ finish 0 well
          ∷ [])
        (idle none buffer_tab))
    ≡ codes "e" ∷ []
unfolding trim is_space find_index ◌===◌ handle_opens
opens_again = refl

open_estimates-handle_opens_example :
    open_keys (handle_opens (late_second (codes "e")) (idle (some (codes "u")) buffer_tab))
    ≡ codes "e" ∷ codes "e" ∷ []
unfolding trim is_space
open_estimates-handle_opens_example =
    open_estimates-handle_opens (codes "e") buffer_tab (some (codes "u")) refl refl

handle_opens-IsSound_example :
    IsSound (handle_opens (late_second (codes "e")) (idle none buffer_tab))
unfolding ◌===◌
handle_opens-IsSound_example =
    handle_opens-IsSound (late_second (codes "e")) (idle none buffer_tab)
      (record { tab = refl; opens = refl; waits = refl })
