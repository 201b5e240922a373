-- ===== src/TreeEditing/Dialog.antt =====
-- Saving the dialog that adds or changes a node: `saveConstructionDialog` (web/app.js). The function
-- throws where the fields are not filled in or the kind is unknown, and otherwise sends one request.
use new_a.Common.{
  not, ◌||◌, List, [], ◌∷◌, ◌++◌, if◌then◌else◌, Text, codes, is_nonempty, trim, Outcome, thrown,
  returned,
}
use new_a.ProjectTree.{Kind, construction, object, estimate}
use new_a.TreeEditing.{ApiRequest, put_at, post_at}

pub record DialogData : Type 0 where
  pub kind : Kind
  pub id : Text
  pub parent_id : Text
  pub code : Text
  pub name : Text

abbrev unknown_kind : Outcome Text ApiRequest
unknown_kind = thrown (codes "Неизвестный тип узла")

abbrev named : Text → Text → List (Text × Text)
named code name = (codes "code", code) ∷ (codes "name", name) ∷ []

abbrev titled : Text → Text → Text → List (Text × Text)
titled parent_id code name =
    (codes "objectId", parent_id) ∷ (codes "code", code) ∷ (codes "title", name) ∷ []

abbrev pub change : Kind → Text → Text → Text → Text → Outcome Text ApiRequest
change construction id parent_id code name =
    returned (put_at (codes "/api/constructions/" ++ id) (named code name))
change object id parent_id code name =
    returned (put_at (codes "/api/objects/" ++ id) (named code name))
change estimate id parent_id code name =
    returned (put_at (codes "/api/estimates/" ++ id) (titled parent_id code name))
change _ id parent_id code name = unknown_kind

abbrev pub create : Kind → Text → Text → Text → Outcome Text ApiRequest
create construction parent_id code name =
    returned (post_at (codes "/api/constructions") (named code name))
create object parent_id code name =
    returned
      (post_at (codes "/api/objects") ((codes "constructionId", parent_id) ∷ named code name))
create estimate parent_id code name =
    returned (post_at (codes "/api/estimates") (titled parent_id code name))
create _ parent_id code name = unknown_kind

abbrev pub save_trimmed : Kind → Text → Text → Text → Text → Outcome Text ApiRequest
save_trimmed kind id parent_id code name =
    if not (is_nonempty code) || not (is_nonempty name)
    then thrown (codes "Укажите шифр и наименование")
    else (if is_nonempty id
        then change kind id parent_id code name
        else create kind parent_id code name)

unfoldable pub save_construction_dialog : DialogData → Outcome Text ApiRequest
unfolding trim
save_construction_dialog d = save_trimmed d.kind (trim d.id) d.parent_id (trim d.code) (trim d.name)
