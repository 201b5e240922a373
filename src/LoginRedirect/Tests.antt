-- ===== src/LoginRedirect/Tests.antt =====
-- Addresses that the login page of web/login.js keeps and refuses.
use new_a.Common.{◌≡◌, refl, codes, trim, inl, inr, is_space}
use new_a.LoginRedirect.{desktop, home, normalize_next}
use new_a.LoginRedirect.OnSite.{OnSite, normalize_next-OnSite}
use new_a.LoginRedirect.Kept.{normalize_next-eq_self}

refused_host : normalize_next (codes "//evil.com/projectStatusDesktop") ≡ home
unfolding normalize_next is_space
refused_host = refl

normalize_next-OnSite_example : OnSite (normalize_next (codes " /projectStatusMobile/7?x=1 "))
normalize_next-OnSite_example = normalize_next-OnSite (codes " /projectStatusMobile/7?x=1 ")

normalize_next-eq_self_example :
    normalize_next (codes "/projectStatusDesktop/12?tab=2") ≡ codes "/projectStatusDesktop/12?tab=2"
unfolding trim is_space
normalize_next-eq_self_example =
    normalize_next-eq_self (codes "/projectStatusDesktop/12?tab=2") refl
      (desktop, codes "/12?tab=2", refl, inr (inl refl, refl))
