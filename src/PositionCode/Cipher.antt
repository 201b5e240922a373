-- ===== src/PositionCode/Cipher.antt =====
-- `extractSourceDataPositionCipher` (web/app.js) and the first separator of its field.
use new_a.Common.{
  ℕ, suc, Bool, false, not, ◌||◌, List, [], ◌∷◌, Option, none, some, ◌==◌, if◌then◌else◌, length,
  take, take_while, Text, is_nonempty, trim, ◌≡◌, refl, sym, ap, arith, Option-cases, inl, inr,
}
use new_a.PositionCode.{
  position_cipher_separators, index_of, cut_before, cut_loop, extract_position_cipher,
}

abbrev pub is_one_of : List ℕ → ℕ → Bool
is_one_of [] c = false
is_one_of (b ∷ bs) c = c == b || is_one_of bs c

cut_before_zero : (o : Option ℕ) → cut_before o 0 ≡ 0
cut_before_zero none = refl
cut_before_zero (some i) = ground arith

cut_loop_zero : (bs : List ℕ) (s : Text) → cut_loop bs s 0 ≡ 0
unfolding cut_loop
cut_loop_zero [] s = refl
cut_loop_zero (b ∷ bs) s = rw (cut_before_zero (index_of b s)) (cut_loop_zero bs s)

cut_before-index_of :
    (b c : ℕ) (s : Text) (n : ℕ)
    → cut_before (index_of b (c ∷ s)) (suc n)
      ≡ (if c == b then 0 else suc (cut_before (index_of b s) n))
unfolding index_of
cut_before-index_of b c s n = elim (Option-cases (index_of b s)) [
  | inl h ↦ ground (arith, h)
  | inr (i, h) ↦ ground (arith, h)
]

cut_loop-cons :
    (bs : List ℕ) (c : ℕ) (s : Text) (n : ℕ)
    → cut_loop bs (c ∷ s) (suc n) ≡ (if is_one_of bs c then 0 else suc (cut_loop bs s n))
unfolding cut_loop
cut_loop-cons [] c s n = refl
cut_loop-cons (b ∷ bs) c s n = ground (
  arith,
  cut_before-index_of b c s n,
  cut_loop_zero bs (c ∷ s),
  cut_loop-cons bs c s (cut_before (index_of b s) n),
)

take-cut_loop :
    (bs : List ℕ) (s : Text)
    → take (cut_loop bs s (length s)) s ≡ take_while (λ c. not (is_one_of bs c)) s
take-cut_loop bs [] = rw (cut_loop_zero bs []) refl
take-cut_loop bs (c ∷ s) = ground (arith, cut_loop-cons bs c s (length s), take-cut_loop bs s)

trim_nil : trim [] ≡ []
unfolding trim
trim_nil = refl

cipher_of_trimmed :
    (bs : List ℕ) (raw : Text)
    → (if is_nonempty raw then trim (take (cut_loop bs raw (length raw)) raw) else [])
      ≡ trim (take_while (λ c. not (is_one_of bs c)) raw)
cipher_of_trimmed bs [] = sym trim_nil
cipher_of_trimmed bs (c ∷ cs) = ap trim (take-cut_loop bs (c ∷ cs))

-- The loop over the separators finds the first of them: the cipher is the trimmed part of the
-- trimmed field before the first bracket, blank or number sign, and the whole field if none is
-- there.
extract_position_cipher-eq-take_while :
    (field : Text)
    → extract_position_cipher field
      ≡ trim (take_while (λ c. not (is_one_of position_cipher_separators c)) (trim field))
unfolding extract_position_cipher
extract_position_cipher-eq-take_while field =
    cipher_of_trimmed position_cipher_separators (trim field)
