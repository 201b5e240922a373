-- ===== src/EditorLines/Keys.antt =====
-- The keys of the controls that add a position: `userPositionBufferKey`, `userPositionEstimateKey`,
-- `gsnEstimateKey` and `parseUserPositionEstimateKey` (web/app.js).
mod Tests
use Prim.Native.String.{String}
use new_a.Common.{
  ℕ, Bool, true, false, not, ◌&&◌, List, [], ◌∷◌, ◌++◌, Option, none, some, get_elem?, ◌==◌,
  if◌then◌else◌, Text, codes, drop_prefix, Lacks, append_assoc, ◌≡◌, refl, sym, ap, ◌∙◌, arith,
}
use new_a.Number.{Arithmetic}
use new_a.EditorLines.{Editor}
use new_a.EditorLines.Lines.{add_line_target_index}

abbrev estimate_prefix : Text
estimate_prefix = codes "estimate:"

abbrev pub position_marker : Text
position_marker = codes ":user-position:"

unfoldable pub user_position_buffer_key : Text → Text
user_position_buffer_key id = codes "buffer:user-position:" ++ id

unfoldable pub key_of_position : Text → Text → Text
key_of_position estimate_id position_id =
    estimate_prefix ++ (estimate_id ++ (position_marker ++ position_id))

unfoldable pub key_of_gsn : Text → Text → Text
key_of_gsn estimate_id node_code = estimate_prefix ++ (estimate_id ++ (codes ":gsn:" ++ node_code))

module _ (a : Arithmetic) where
  unfoldable pub add_line_target_id : Editor a → Option Text
  unfolding add_line_target_index
  add_line_target_id s = elim (add_line_target_index a s) [
    | none ↦ none
    | some i ↦ elim (get_elem? s.open_estimates i) [ none ↦ none | some e ↦ some e.id ]
  ]

  abbrev key_with : (Text → Text) → Option Text → Option Text
  key_with key none = none
  key_with key (some id) = some (key id)

  unfoldable pub user_position_estimate_key : Text → Editor a → Option Text
  unfolding add_line_target_id key_of_position
  user_position_estimate_key position_id s =
      key_with (λ id. key_of_position id position_id) (add_line_target_id s)

  unfoldable pub gsn_estimate_key : Text → Editor a → Option Text
  unfolding add_line_target_id key_of_gsn
  gsn_estimate_key node_code s = key_with (λ id. key_of_gsn id node_code) (add_line_target_id s)

-- The marker found here, or else further on.
abbrev here_or_later : ℕ → Option Text → Option (Text × Text) → Option (Text × Text)
here_or_later c (some after) later = some ([], after)
here_or_later c none (some (before, after)) = some (c ∷ before, after)
here_or_later c none none = none

-- `text.indexOf(marker)` for a marker that is not empty, with the slices before and after it.
unfoldable pub split_at_marker : Text → Text → Option (Text × Text)
unfolding drop_prefix
split_at_marker marker [] = none
split_at_marker marker (c ∷ cs) =
    here_or_later c (drop_prefix marker (c ∷ cs)) (split_at_marker marker cs)

-- The identifiers of the estimate and the position.
unfoldable pub parse_user_position_estimate_key : Text → Option (Text × Text)
unfolding drop_prefix split_at_marker
parse_user_position_estimate_key key = elim (drop_prefix estimate_prefix key) [
  | none ↦ none
  | some rest ↦ split_at_marker position_marker rest
]

split_at_here :
    (after : Text) → split_at_marker position_marker (position_marker ++ after) ≡ some ([], after)
unfolding split_at_marker
split_at_here after = refl

not_here : (c : ℕ) (cs : Text) → (c == b':') ≡ false → drop_prefix position_marker (c ∷ cs) ≡ none
unfolding drop_prefix
not_here c cs h = ground (arith, h)

split_at_marker-cons :
    (c : ℕ) (cs : Text)
    → split_at_marker position_marker (c ∷ cs)
      ≡ here_or_later c (drop_prefix position_marker (c ∷ cs)) (split_at_marker position_marker cs)
unfolding split_at_marker
split_at_marker-cons c cs = refl

split_at_next :
    (c : ℕ) (cs before after : Text)
    → (c == b':') ≡ false
    → split_at_marker position_marker cs ≡ some (before, after)
    → split_at_marker position_marker (c ∷ cs) ≡ some (c ∷ before, after)
split_at_next c cs before after h k = rw (split_at_marker-cons c cs, not_here c cs h, k) refl

split_at_marker-append :
    (id after : Text)
    → Lacks b':' id
    → split_at_marker position_marker (id ++ (position_marker ++ after)) ≡ some (id, after)
split_at_marker-append [] after h = split_at_here after
split_at_marker-append (c ∷ id) after h =
    split_at_next c (id ++ (position_marker ++ after)) id after (ground (arith, h.0))
      (split_at_marker-append id after h.1)

parse_after_prefix :
    (rest : Text)
    → parse_user_position_estimate_key (estimate_prefix ++ rest)
      ≡ split_at_marker position_marker rest
unfolding parse_user_position_estimate_key
parse_after_prefix rest = refl

-- The key of a position in an estimate is read back: where the identifier of the estimate holds no
-- colon, the two identifiers are those that the key was made of.
pub parse_user_position_estimate_key-key_of_position :
    (estimate_id position_id : Text)
    → Lacks b':' estimate_id
    → parse_user_position_estimate_key (key_of_position estimate_id position_id)
      ≡ some (estimate_id, position_id)
unfolding key_of_position
parse_user_position_estimate_key-key_of_position estimate_id position_id h =
    parse_after_prefix (estimate_id ++ (position_marker ++ position_id))
    ∙ split_at_marker-append estimate_id position_id h
