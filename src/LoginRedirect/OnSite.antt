-- ===== src/LoginRedirect/OnSite.antt =====
-- Where the login page of web/login.js can lead.
use new_a.Common.{
  ℕ, Bool, true, false, not, ◌&&◌, ◌||◌, [], ◌∷◌, ◌++◌, ◌==◌, if◌then◌else◌, Text, codes, ◌===◌,
  ===_iff, starts_with, trim, take_while, drop_while, ◌≡◌, refl, sym, ap, ◌∙◌, arith, ◌⊎◌, inl, inr,
  Bool-cases, ==_iff, append_assoc,
}
use mathlib.Core.Path.{subst}
use new_a.LoginRedirect.{
  home, desktop, mobile, is_path_char, path_of, is_under, is_allowed, normalize_next, checked_next,
  has_scheme,
}

-- Nothing, or a text that begins with `?` or `#`.
abbrev pub IsQuery : Text → Type 0
IsQuery [] = Unit
IsQuery (c ∷ cs) = (c == b'?' || c == b'#') ≡ true

-- Nothing, or a text that begins with `/`, `?` or `#`.
abbrev pub IsRest : Text → Type 0
IsRest [] = Unit
IsRest (c ∷ cs) = (c == b'/' || c == b'?' || c == b'#') ≡ true

-- An address of the site: the home page with a query, or one of the two project pages with what
-- lies under it.
abbrev pub OnSite : Text → Type 0
OnSite s =
    (page : Text) × (rest : Text) × (s ≡ page ++ rest)
    × (((page ≡ home) × IsQuery rest) ⊎ (((page ≡ desktop) ⊎ (page ≡ mobile)) × IsRest rest))

take-drop : (s : Text) → s ≡ take_while is_path_char s ++ drop_while is_path_char s
take-drop [] = refl
take-drop (c ∷ s) = ground (arith, take-drop s)

drop_while-IsQuery : (s : Text) → IsQuery (drop_while is_path_char s)
drop_while-IsQuery [] = tt
drop_while-IsQuery (c ∷ s) = ground (arith, drop_while-IsQuery s)

starts_with_split : (p s : Text) → starts_with p s ≡ true → (rest : Text) × (s ≡ p ++ rest)
unfolding starts_with
starts_with_split [] s h = (s, refl)
starts_with_split (c ∷ p) [] h = cc
starts_with_split (c ∷ p) (d ∷ s) h =
    let (rest, e) = starts_with_split p s (ground arith) in (rest, ground (arith, e))

is_under_split :
    (path page : Text)
    → is_under path page ≡ true
    → (path ≡ page) ⊎ ((rest : Text) × (path ≡ page ++ b'/' ∷ rest))
unfolding is_under
is_under_split path page h = elim (Bool-cases (path === page)) [
  | inl same ↦ inl ((===_iff path page).0 same)
  | inr differs ↦
      let (rest, e) = starts_with_split (page ++ b'/' ∷ []) path (ground arith) in
      inr (rest, e ∙ append_assoc page (b'/' ∷ []) rest)
]

IsRest-query : (q : Text) → IsQuery q → IsRest q
IsRest-query [] h = tt
IsRest-query (c ∷ q) h = ground arith

under_page :
    (value path query page : Text)
    → value ≡ path ++ query
    → IsQuery query
    → is_under path page ≡ true
    → (page ≡ desktop) ⊎ (page ≡ mobile)
    → OnSite value
under_page value path query page e q h known = elim (is_under_split path page h) [
  | inl same ↦ (page, query, e ∙ ap (λ p. p ++ query) same, inr (known, IsRest-query query q))
  | inr (rest, below) ↦ (
    page,
    b'/' ∷ rest ++ query,
    e ∙ ap (λ p. p ++ query) below ∙ append_assoc page (b'/' ∷ rest) query,
    inr (known, refl),
  )
]

pub is_allowed_lem :
    (path : Text)
    → is_allowed path
      ≡ (path === home || (is_under path desktop || (is_under path mobile || false)))
unfolding is_allowed
is_allowed_lem path = refl

is_allowed_cases :
    (path : Text)
    → is_allowed path ≡ true
    → (path ≡ home) ⊎ ((is_under path desktop ≡ true) ⊎ (is_under path mobile ≡ true))
is_allowed_cases path h = elim (Bool-cases (path === home)) [
  | inl same ↦ inl ((===_iff path home).0 same)
  | inr differs ↦ elim (Bool-cases (is_under path desktop)) [
    | inl d ↦ inr (inl d)
    | inr n ↦ inr (inr (ground (arith, is_allowed_lem path)))
  ]
]

path_of_slash : (cs : Text) → path_of (b'/' ∷ cs) ≡ take_while is_path_char (b'/' ∷ cs)
unfolding path_of
path_of_slash cs = refl

allowed-OnSite : (cs : Text) → is_allowed (path_of (b'/' ∷ cs)) ≡ true → OnSite (b'/' ∷ cs)
allowed-OnSite cs h =
    let value : Text = b'/' ∷ cs in
    let path = take_while is_path_char value in
    let query = drop_while is_path_char value in
    let e = take-drop value in
    let q = drop_while-IsQuery value in
    elim (is_allowed_cases path (ap is_allowed (sym (path_of_slash cs)) ∙ h)) [
      | inl same ↦ (home, query, e ∙ ap (λ p. p ++ query) same, inl (refl, q))
      | inr (inl d) ↦ under_page value path query desktop e q d (inl refl)
      | inr (inr m) ↦ under_page value path query mobile e q m (inr refl)
    ]

with_slash :
    (c : ℕ) (cs : Text)
    → (b'/' == c) ≡ true
    → is_allowed (path_of (c ∷ cs)) ≡ true
    → OnSite (c ∷ cs)
with_slash c cs h g =
    let e : b'/' ≡ c = (==_iff b'/' c).0 h in
    subst (λ d. is_allowed (path_of (d ∷ cs)) ≡ true → OnSite (d ∷ cs)) e (allowed-OnSite cs) g

starts_with_slash : (c : ℕ) (cs : Text) → starts_with (codes "/") (c ∷ cs) ≡ (b'/' == c && true)
unfolding starts_with
starts_with_slash c cs = refl

pub checked_next_cons :
    (c : ℕ) (cs : Text)
    → checked_next (c ∷ cs) ≡ (
        if not (starts_with (codes "/") (c ∷ cs)) || starts_with (codes "//") (c ∷ cs)
        then home
        else if has_scheme (c ∷ cs)
        then home
        else if not (is_allowed (path_of (c ∷ cs)))
        then home
        else c ∷ cs)
unfolding checked_next
checked_next_cons c cs = refl

checked_next_nil : checked_next [] ≡ home
unfolding checked_next
checked_next_nil = refl

home-OnSite : OnSite home
home-OnSite = (home, [], refl, inl (refl, tt))

-- The tests in a row let only a value through that passes them all.
tests_cases :
    (slash double scheme good : Bool) (refused value : Text)
    → ((if not slash || double
          then refused
          else if scheme
          then refused
          else if not good
          then refused
          else value)
        ≡ refused)
      ⊎ (((if not slash || double
              then refused
              else if scheme
              then refused
              else if not good
              then refused
              else value)
            ≡ value)
          × (slash ≡ true)
          × (good ≡ true))
tests_cases false double scheme good refused value = inl refl
tests_cases true true scheme good refused value = inl refl
tests_cases true false true good refused value = inl refl
tests_cases true false false false refused value = inl refl
tests_cases true false false true refused value = inr (refl, refl, refl)

checked_next-OnSite : (value : Text) → OnSite (checked_next value)
checked_next-OnSite [] = rw checked_next_nil home-OnSite
checked_next-OnSite (c ∷ cs) =
    let slash = starts_with (codes "/") (c ∷ cs) in
    let double = starts_with (codes "//") (c ∷ cs) in
    let good = is_allowed (path_of (c ∷ cs)) in
    elim (tests_cases slash double (has_scheme (c ∷ cs)) good home (c ∷ cs)) [
      | inl refused ↦ rw (checked_next_cons c cs, refused) home-OnSite
      | inr (passed, s, g) ↦
          rw (checked_next_cons c cs, passed)
            (with_slash c cs (ground (arith, starts_with_slash c cs, s)) g)
    ]

-- The login page leads nowhere but to the site itself: whatever address is asked for, the result is
-- the home page with a query, or one of the two project pages, alone or with a path, query or
-- fragment behind it.
pub normalize_next-OnSite : (raw : Text) → OnSite (normalize_next raw)
unfolding normalize_next
normalize_next-OnSite raw = checked_next-OnSite (trim raw)
