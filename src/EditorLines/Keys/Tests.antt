-- ===== src/EditorLines/Keys/Tests.antt =====
-- A key of web/app.js.
use new_a.Common.{some, ◌≡◌, refl, codes}
use new_a.EditorLines.Keys.{key_of_position, parse_user_position_estimate_key}

key_text : key_of_position (codes "e1") (codes "p:2") ≡ codes "estimate:e1:user-position:p:2"
unfolding key_of_position
key_text = refl

read_back :
    parse_user_position_estimate_key (codes "estimate:e1:user-position:p:2")
    ≡ some (codes "e1", codes "p:2")
unfolding parse_user_position_estimate_key
read_back = refl
