-- ===== src/LoginRedirect/Kept.antt =====
-- The addresses of the site in the login page of web/login.js.
use new_a.Common.{
  true, false, [], ◌∷◌, ◌++◌, ◌==◌, Text, codes, starts_with, trim, take_while, ◌≡◌, refl, sym, ap,
  ◌∙◌, arith, inl, inr, ==_iff,
}
use mathlib.Core.Path.{subst}
use new_a.LoginRedirect.{
  home, desktop, mobile, is_path_char, path_of, is_under, is_allowed, normalize_next, checked_next,
  has_scheme,
}
use new_a.LoginRedirect.OnSite.{OnSite, IsQuery, IsRest, is_allowed_lem, checked_next_cons}

-- A value that begins with a slash, not followed by a second one, is kept where its path is allowed.
first_tests :
    (cs : Text)
    → (starts_with (codes "/") (b'/' ∷ cs) ≡ true)
      × (starts_with (codes "//") (b'/' ∷ cs) ≡ starts_with (codes "/") cs)
      × (has_scheme (b'/' ∷ cs) ≡ false)
unfolding starts_with has_scheme
first_tests cs = (refl, refl, refl)

checked_next_kept :
    (cs : Text)
    → starts_with (codes "/") cs ≡ false
    → is_allowed (path_of (b'/' ∷ cs)) ≡ true
    → checked_next (b'/' ∷ cs) ≡ b'/' ∷ cs
checked_next_kept cs h g =
    let f = first_tests cs in ground (arith, checked_next_cons b'/' cs, f.0, f.1, f.2, h, g)

path_of-desktop :
    (rest : Text) → path_of (desktop ++ rest) ≡ desktop ++ take_while is_path_char rest
unfolding path_of
path_of-desktop rest = refl

path_of-mobile : (rest : Text) → path_of (mobile ++ rest) ≡ mobile ++ take_while is_path_char rest
unfolding path_of
path_of-mobile rest = refl

abbrev pub IsBelow : Text → Type 0
IsBelow [] = Unit
IsBelow (c ∷ cs) = (c == b'/') ≡ true

under_desktop : (t : Text) → IsBelow t → is_under (desktop ++ t) desktop ≡ true
unfolding is_under
under_desktop [] h = refl
under_desktop (c ∷ t) h =
    subst (λ d. is_under (desktop ++ d ∷ t) desktop ≡ true) (sym ((==_iff c b'/').0 h)) refl

under_mobile : (t : Text) → IsBelow t → is_under (mobile ++ t) mobile ≡ true
unfolding is_under
under_mobile [] h = refl
under_mobile (c ∷ t) h =
    subst (λ d. is_under (mobile ++ d ∷ t) mobile ≡ true) (sym ((==_iff c b'/').0 h)) refl

IsBelow-take_while : (rest : Text) → IsRest rest → IsBelow (take_while is_path_char rest)
IsBelow-take_while [] h = tt
IsBelow-take_while (c ∷ rest) h = ground arith

take_while-query : (rest : Text) → IsQuery rest → take_while is_path_char rest ≡ []
take_while-query [] h = refl
take_while-query (c ∷ rest) h = ground arith

path_of-home : (rest : Text) → path_of (b'/' ∷ rest) ≡ b'/' ∷ take_while is_path_char rest
unfolding path_of
path_of-home rest = refl

query_no_slash : (rest : Text) → IsQuery rest → starts_with (codes "/") rest ≡ false
unfolding starts_with
query_no_slash [] h = refl
query_no_slash (c ∷ rest) h = ground arith

no_second_slash :
    (rest : Text)
    → (starts_with (codes "/") (codes "projectStatusDesktop" ++ rest) ≡ false)
      × (starts_with (codes "/") (codes "projectStatusMobile" ++ rest) ≡ false)
unfolding starts_with
no_second_slash rest = (refl, refl)

home_allowed : is_allowed home ≡ true
unfolding is_allowed
home_allowed = refl

kept_home : (rest : Text) → IsQuery rest → checked_next (home ++ rest) ≡ home ++ rest
kept_home rest h = checked_next_kept rest (query_no_slash rest h) (
    ap is_allowed (path_of-home rest ∙ ap (λ r. b'/' ∷ r) (take_while-query rest h)) ∙ home_allowed)

-- A path below one of the two pages is allowed.
desktop_allowed : (path : Text) → is_under path desktop ≡ true → is_allowed path ≡ true
desktop_allowed path h = ground (arith, is_allowed_lem path)

mobile_allowed : (path : Text) → is_under path mobile ≡ true → is_allowed path ≡ true
mobile_allowed path h = ground (arith, is_allowed_lem path)

kept_desktop : (rest : Text) → IsRest rest → checked_next (desktop ++ rest) ≡ desktop ++ rest
kept_desktop rest h =
    checked_next_kept (codes "projectStatusDesktop" ++ rest) ((no_second_slash rest).0) (
      ap is_allowed (path_of-desktop rest)
      ∙ desktop_allowed _
          (under_desktop (take_while is_path_char rest) (IsBelow-take_while rest h)))

kept_mobile : (rest : Text) → IsRest rest → checked_next (mobile ++ rest) ≡ mobile ++ rest
kept_mobile rest h =
    checked_next_kept (codes "projectStatusMobile" ++ rest) ((no_second_slash rest).1) (
      ap is_allowed (path_of-mobile rest)
      ∙ mobile_allowed _ (under_mobile (take_while is_path_char rest) (IsBelow-take_while rest h)))

checked_next-eq_self : (s : Text) → OnSite s → checked_next s ≡ s
checked_next-eq_self s (page, rest, e, inl (p, h)) =
    let e' = e ∙ ap (λ q. q ++ rest) p in ap checked_next e' ∙ kept_home rest h ∙ sym e'
checked_next-eq_self s (page, rest, e, inr (inl p, h)) =
    let e' = e ∙ ap (λ q. q ++ rest) p in ap checked_next e' ∙ kept_desktop rest h ∙ sym e'
checked_next-eq_self s (page, rest, e, inr (inr p, h)) =
    let e' = e ∙ ap (λ q. q ++ rest) p in ap checked_next e' ∙ kept_mobile rest h ∙ sym e'

-- The login page keeps every address of the site: the home page with a query and the two project
-- pages, with what stands behind them, are the result where no white space surrounds them.
pub normalize_next-eq_self : (s : Text) → trim s ≡ s → OnSite s → normalize_next s ≡ s
unfolding normalize_next
normalize_next-eq_self s t h = ap checked_next t ∙ checked_next-eq_self s h
