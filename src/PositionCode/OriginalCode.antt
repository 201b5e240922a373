-- ===== src/PositionCode/OriginalCode.antt =====
-- The bracketed codes behind the cipher of a position (web/app.js).
use new_a.Common.{
  ℕ, zero, suc, ◌+◌, ◌<◌, true, false, [], ◌∷◌, ◌++◌, none, some, if◌then◌else◌, length, Text,
  codes, is_nonempty, starts_with, trim, trim_end, trim_cons, is_space, Lacks, ◌≡◌, ◌≢◌, refl, ap,
  ◌∙◌, arith, Option-cases, length-append, inl, inr,
}
use new_a.PositionCode.{
  split_first, original_code_loop, extract_original_code, after_assignment_sign,
  extract_determinant_assignment,
}

pub split_first-append :
    (b : ℕ) (before after : Text)
    → Lacks b before
    → split_first b (before ++ b ∷ after) ≡ some (before, after)
unfolding split_first
split_first-append b [] after h = ground arith
split_first-append b (c ∷ before) after h = ground (arith, split_first-append b before after h.1)

-- What is left after a split is shorter.
split_first-shorter :
    (b : ℕ) (s before after : Text)
    → split_first b s ≡ some (before, after)
    → length after < length s
unfolding split_first
split_first-shorter b [] before after h = cc
split_first-shorter b (c ∷ s) before after h = elim (Option-cases (split_first b s)) [
  | inl k ↦ ground (arith, k)
  | inr ((before', after'), k) ↦ ground (arith, k, split_first-shorter b s before' after' k)
]

original_code_loop-suc :
    (f : ℕ) (left before opened inner rest : Text)
    → split_first b'(' left ≡ some (before, opened)
    → split_first b')' opened ≡ some (inner, rest)
    → original_code_loop (suc f) left ≡ (
        if starts_with (codes "=") (trim inner)
        then elim (is_nonempty rest) [ true ↦ original_code_loop f rest | false ↦ some [] ]
        else some (trim inner))
unfolding original_code_loop
original_code_loop-suc f left before opened inner rest h k = ground (arith, h, k)

original_code_loop_unopened :
    (f : ℕ) (left : Text) → split_first b'(' left ≡ none → original_code_loop (suc f) left ≡ some []
unfolding original_code_loop
original_code_loop_unopened f left h = ground (arith, h)

original_code_loop_unclosed :
    (f : ℕ) (left before opened : Text)
    → split_first b'(' left ≡ some (before, opened)
    → split_first b')' opened ≡ none
    → original_code_loop (suc f) left ≡ some []
unfolding original_code_loop
original_code_loop_unclosed f left before opened h k = ground (arith, h, k)

original_code_loop-ne-none :
    (f : ℕ) (left : Text) → length left < f → original_code_loop f left ≢ none
original_code_loop-ne-none zero left h = absurd (omega arith)
original_code_loop-ne-none (suc f) left h = elim (Option-cases (split_first b'(' left)) [
  | inl k ↦ λ e. cc (original_code_loop_unopened f left k)
  | inr ((before, opened), k) ↦ elim (Option-cases (split_first b')' opened)) [
    | inl l ↦ λ e. cc (original_code_loop_unclosed f left before opened k l)
    | inr ((inner, rest), l) ↦
        let shorter : length rest < f = omega (
          arith,
          split_first-shorter b'(' left before opened k,
          split_first-shorter b')' opened inner rest l,
        ) in
        λ e. ground (
          arith,
          original_code_loop-suc f left before opened inner rest k l,
          original_code_loop-ne-none f rest shorter,
        )
  ]
]

-- The search for the original code ends on every field.
pub extract_original_code-ne-none : (field : Text) → extract_original_code field ≢ none
unfolding extract_original_code
extract_original_code-ne-none field =
    original_code_loop-ne-none (suc (length (trim field))) (trim field) (omega arith)

assignment_trim_cons : (t : Text) → starts_with (codes "=") (trim_cons b'=' t) ≡ true
unfolding trim_cons starts_with is_space
assignment_trim_cons [] = refl
assignment_trim_cons (c ∷ t) = refl

assignment_trim : (det : Text) → starts_with (codes "=") (trim (b'=' ∷ det)) ≡ true
unfolding trim is_space
assignment_trim det = assignment_trim_cons (trim_end det)

after_assignment_sign-append :
    (cipher opened : Text)
    → Lacks b'(' cipher
    → after_assignment_sign (cipher ++ b'(' ∷ b'=' ∷ opened) ≡ some opened
unfolding after_assignment_sign
after_assignment_sign-append [] opened h = refl
after_assignment_sign-append (c ∷ []) opened h = ground arith
after_assignment_sign-append (c ∷ d ∷ cs) opened h =
    ground (arith, after_assignment_sign-append (d ∷ cs) opened h.1)

extract_determinant_assignment_lem :
    (field opened inner rest : Text)
    → after_assignment_sign (trim field) ≡ some opened
    → split_first b')' opened ≡ some (inner, rest)
    → extract_determinant_assignment field ≡ trim inner
unfolding extract_determinant_assignment
extract_determinant_assignment_lem field opened inner rest h k = ground (arith, h, k)

extract_original_code_lem :
    (field raw : Text)
    → trim field ≡ raw
    → extract_original_code field ≡ original_code_loop (suc (length raw)) raw
unfolding extract_original_code
extract_original_code_lem field raw h = ap (λ r. original_code_loop (suc (length r)) r) h

-- The field of a position with a determinant and an original code in brackets, and what follows.
abbrev pub with_codes : Text → Text → Text → Text → Text
with_codes cipher det orig rest =
    cipher ++ b'(' ∷ b'=' ∷ (det ++ b')' ∷ b'(' ∷ (orig ++ b')' ∷ rest))

loop-with_codes :
    (f : ℕ) (cipher det orig rest : Text)
    → Lacks b'(' cipher
    → Lacks b')' det
    → Lacks b')' orig
    → starts_with (codes "=") (trim orig) ≡ false
    → original_code_loop (suc (suc f)) (with_codes cipher det orig rest) ≡ some (trim orig)
loop-with_codes f cipher det orig rest hc hd ho hs =
    let tail = orig ++ b')' ∷ rest in
    let opened = det ++ b')' ∷ b'(' ∷ tail in
    let first =
      original_code_loop-suc (suc f) (with_codes cipher det orig rest) cipher (b'=' ∷ opened)
        (b'=' ∷ det) (b'(' ∷ tail) (split_first-append b'(' cipher (b'=' ∷ opened) hc)
        (split_first-append b')' (b'=' ∷ det) (b'(' ∷ tail) (refl, hd)) in
    let second =
      original_code_loop-suc f (b'(' ∷ tail) [] tail orig rest (split_first-append b'(' [] tail tt)
        (split_first-append b')' orig rest ho) in
    first ∙ rw (assignment_trim det) (second ∙ rw hs refl)

fuel-with_codes :
    (cipher det orig rest : Text) → (f : ℕ) × (length (with_codes cipher det orig rest) ≡ suc f)
fuel-with_codes cipher det orig rest =
    let tail = b'=' ∷ (det ++ b')' ∷ b'(' ∷ (orig ++ b')' ∷ rest)) in
    (length cipher + length tail, omega (arith, length-append cipher (b'(' ∷ tail)))

-- Both bracketed codes are found: in a field that, trimmed, is a cipher, a determinant in `(=` and
-- `)`, an original code in brackets and any rest, where the cipher holds no opening bracket, the
-- two codes no closing one, and the original code does not begin with `=`, the original code and
-- the determinant that are extracted are the two codes, trimmed.
pub extract_original_code-with_codes :
    (field cipher det orig rest : Text)
    → trim field ≡ with_codes cipher det orig rest
    → Lacks b'(' cipher
    → Lacks b')' det
    → Lacks b')' orig
    → starts_with (codes "=") (trim orig) ≡ false
    → (extract_original_code field ≡ some (trim orig))
      × (extract_determinant_assignment field ≡ trim det)
extract_original_code-with_codes field cipher det orig rest e hc hd ho hs =
    let tail = orig ++ b')' ∷ rest in
    let opened = det ++ b')' ∷ b'(' ∷ tail in
    let raw = with_codes cipher det orig rest in
    let (f, enough) = fuel-with_codes cipher det orig rest in
    (
      extract_original_code_lem field raw e
          ∙ ap (λ n. original_code_loop (suc n) raw) enough
          ∙ loop-with_codes f cipher det orig rest hc hd ho hs,
      extract_determinant_assignment_lem field opened det (b'(' ∷ tail)
          (ap after_assignment_sign e ∙ after_assignment_sign-append cipher opened hc)
          (split_first-append b')' det (b'(' ∷ tail) hd),
    )
