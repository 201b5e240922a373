-- ===== src/UserPositions/Tests.antt =====
-- The user's own positions of web/app.js at concrete states.
use new_a.Common.{
  ℕ, Bool, true, false, List, [], ◌∷◌, map, Option, none, some, ltb, is_space, has, no_repeats,
  Text, codes, ◌===◌, ◌≡◌, refl,
}
use new_a.Number.Naturals.{naturals}
use new_a.UserPositions.{
  UserPosition, position_key, Catalog, with_items, no_items, load_user_positions,
  save_user_position_dialog, delete_user_position,
}
use new_a.UserPositions.Load.{loaded, load_user_positions-items}
use new_a.UserPositions.Import.{EstimateLine, position, import_user_positions}
use new_a.UserPositions.Import.Codes.{code_of, Imports, import_user_positions-Imports}

abbrev negative : naturals.Num → Bool
negative x = false

abbrev positive : naturals.Num → Bool
positive none = false
positive (some n) = ltb 0 n

abbrev new_id : ℕ → Text
new_id n = b'u' ∷ n ∷ []

abbrev own : Text → Text → UserPosition naturals.Num
own id code = record { id = id; code = code; name = codes "n"; unit = []; cost = some 1 }

abbrev one_position : Catalog naturals.Num
one_position = record {
  items = own (codes "p") (codes "Т1") ∷ [];
  edit_id = [];
  stored = [];
  made = 0;
  message = [];
}

abbrev line : Text → EstimateLine naturals.Num
line code = record {
  line_type = position;
  source_code = code;
  lookup_code = [];
  code = [];
  name = codes "n";
  unit = [];
  unit_price = some 5;
  quantity = some 1;
  parsed = none;
}

abbrev fetched : List (Option (List (EstimateLine naturals.Num)))
fetched =
    some (line (codes "Т1") ∷ line (codes "Т2") ∷ line (codes "1-2") ∷ [])
    ∷ none
    ∷ some (line (codes "Т2") ∷ [])
    ∷ []

abbrev local_entries : List (Option (UserPosition naturals.Num))
local_entries =
    none ∷ some (own (codes "a") []) ∷ some (own [] []) ∷ some (own (codes "a") (codes "Т1")) ∷ []

imported_codes :
    map code_of (import_user_positions naturals negative positive new_id fetched one_position).items
    ≡ codes "Т1" ∷ codes "Т2" ∷ []
unfolding import_user_positions is_space ◌===◌
imported_codes = refl

a_negative_cost :
    (save_user_position_dialog naturals
      (λ x. true)
      new_id
      (record { code = codes "Т3"; name = codes "n"; unit = []; cost = codes "7" })
      one_position).0
    ≡ false
unfolding save_user_position_dialog is_space
a_negative_cost = refl

deleted_and_stored : (delete_user_position (codes "p") one_position).stored ≡ []
unfolding delete_user_position ◌===◌
deleted_and_stored = refl

-- Of the two local entries `a` the first is taken.
first_a_is_taken :
    (load_user_positions (with_items []) local_entries one_position).items ≡ own (codes "a") [] ∷ []
unfolding load_user_positions has ◌===◌
first_a_is_taken = refl

load_user_positions-items_example :
    ((load_user_positions (with_items []) local_entries one_position).items
      ≡ loaded (with_items []) local_entries)
    × (no_repeats (map position_key (load_user_positions no_items local_entries one_position).items)
        ≡ true)
load_user_positions-items_example =
    load_user_positions-items (with_items []) local_entries one_position

import_user_positions-Imports_example :
    Imports naturals negative positive new_id fetched one_position
      (import_user_positions naturals negative positive new_id fetched one_position)
import_user_positions-Imports_example =
    import_user_positions-Imports naturals negative positive new_id fetched one_position
