-- ===== src/ProjectTree.antt =====
-- The tree of constructions, objects and estimates that the client keeps (`state.constructions`,
-- `state.objects`, `state.estimates` of web/app.js), and the estimates below one of its nodes.
pub mod Keys
pub mod Progress
pub mod Scope
use new_a.Common.{
  Bool, true, false, ◌&&◌, ◌||◌, ℕ, ◌≤◌, List, [], ◌∷◌, map, Option, none, some, ◌≡◌, if◌then◌else◌,
  filter, find, Text, ◌===◌, is_nonempty, has, leb,
}

pub record Construction : Type 0 where
  pub id : Text
  pub code : Text
  pub name : Text

pub record Object : Type 0 where
  pub id : Text
  pub construction_id : Text
  pub code : Text
  pub name : Text

pub record Estimate : Type 0 where
  pub id : Text
  pub object_id : Text
  pub calc_lines_total : ℕ
  pub calc_lines_done : ℕ

pub record Tree : Type 0 where
  pub constructions : List Construction
  pub objects : List Object
  pub estimates : List Estimate

abbrev pub construction_key : Construction → Text
construction_key c = c.id

abbrev pub object_key : Object → Text
object_key o = o.id

abbrev pub estimate_key : Estimate → Text
estimate_key e = e.id

-- `list.find((item) => item.id === id)`.
abbrev pub find_by {ℓ} : {A : Type ℓ} → (A → Text) → Text → List A → Option A
find_by key id = find (λ x. key x === id)

abbrev pub find_construction : Tree → Text → Option Construction
find_construction t id = find_by construction_key id t.constructions

abbrev pub find_object : Tree → Text → Option Object
find_object t id = find_by object_key id t.objects

abbrev pub find_estimate : Tree → Text → Option Estimate
find_estimate t id = find_by estimate_key id t.estimates

-- The strings by which the client names a kind of node; `other` is any further string.
pub data Kind : Type 0 where
  all construction object estimate other : Kind

unfoldable pub object_ids_of_construction : Tree → Text → List Text
object_ids_of_construction t id = map object_key (filter (λ o. o.construction_id === id) t.objects)

unfoldable pub collect_estimate_ids_for_scope : Tree → Kind → Text → List Text
unfolding object_ids_of_construction
collect_estimate_ids_for_scope t estimate id = if is_nonempty id then id ∷ [] else []
collect_estimate_ids_for_scope t object id =
    filter is_nonempty (map estimate_key (filter (λ e. e.object_id === id) t.estimates))
collect_estimate_ids_for_scope t construction id =
    let object_ids = object_ids_of_construction t id in
    filter is_nonempty (map estimate_key (filter (λ e. has object_ids e.object_id) t.estimates))
collect_estimate_ids_for_scope t _ id = []

-- Stable sorting by `compareByCode`, which is `localeCompare` of the codes: `code_le` says that the
-- left code does not stand after the right one.
module _ (code_le : Text → Text → Bool) where
  unfoldable pub insert_by_code : Construction → List Construction → List Construction
  insert_by_code c [] = c ∷ []
  insert_by_code c (d ∷ ds) = if code_le c.code d.code then c ∷ d ∷ ds else d ∷ insert_by_code c ds

  unfoldable pub sort_by_code : List Construction → List Construction
  unfolding insert_by_code
  sort_by_code [] = []
  sort_by_code (c ∷ cs) = insert_by_code c (sort_by_code cs)
