-- ===== src/LoginRedirect.antt =====
-- Where the login page sends its user: `normalizeNext` (web/login.js).
pub mod OnSite
pub mod Kept
mod Tests
use Prim.Native.String.{String}
use new_a.Common.{
  ℕ, Bool, true, false, not, ◌&&◌, ◌||◌, List, [], ◌∷◌, ◌++◌, ◌==◌, leb, if◌then◌else◌, Text, codes,
  ◌===◌, is_nonempty, starts_with, trim, take_while, drop_while, is_digit,
}

abbrev pub home : Text
home = codes "/"

abbrev pub desktop : Text
desktop = codes "/projectStatusDesktop"

abbrev pub mobile : Text
mobile = codes "/projectStatusMobile"

abbrev pub allowed_next_prefixes : List Text
allowed_next_prefixes = home ∷ desktop ∷ mobile ∷ []

abbrev is_letter : ℕ → Bool
is_letter c = (leb b'a' c && leb c b'z') || (leb b'A' c && leb c b'Z')

abbrev is_scheme_char : ℕ → Bool
is_scheme_char c = is_letter c || is_digit c || c == b'+' || c == b'.' || c == b'-'

abbrev starts_with_colon : Text → Bool
starts_with_colon [] = false
starts_with_colon (c ∷ cs) = c == b':'

-- `/^[a-zA-Z][a-zA-Z0-9+.-]*:/.test(value)`.
unfoldable pub has_scheme : Text → Bool
has_scheme [] = false
has_scheme (c ∷ cs) = is_letter c && starts_with_colon (drop_while is_scheme_char cs)

-- `/[?#]/` does not match the character.
abbrev pub is_path_char : ℕ → Bool
is_path_char c = not (c == b'?' || c == b'#')

-- `value.split(/[?#]/)[0] || "/"`.
unfoldable pub path_of : Text → Text
path_of value = let path = take_while is_path_char value in if is_nonempty path then path else home

-- `path === prefix || path.startsWith(prefix + "/")`.
unfoldable pub is_under : Text → Text → Bool
unfolding ◌===◌ starts_with
is_under path prefix = path === prefix || starts_with (prefix ++ b'/' ∷ []) path

-- `ALLOWED_NEXT_PREFIXES.some((prefix) => prefix !== "/" && …)`.
unfoldable pub is_under_some : Text → List Text → Bool
unfolding ◌===◌ is_under
is_under_some path [] = false
is_under_some path (prefix ∷ prefixes) =
    (not (prefix === home) && is_under path prefix) || is_under_some path prefixes

unfoldable pub is_allowed : Text → Bool
unfolding ◌===◌ is_under_some
is_allowed path = path === home || is_under_some path allowed_next_prefixes

-- The tests of the trimmed text.
unfoldable pub checked_next : Text → Text
unfolding starts_with has_scheme path_of is_allowed
checked_next value =
    if not (is_nonempty value)
    then home
    else if not (starts_with (codes "/") value) || starts_with (codes "//") value
    then home
    else if has_scheme value
    then home
    else if not (is_allowed (path_of value))
    then home
    else value

unfoldable pub normalize_next : Text → Text
unfolding trim checked_next
normalize_next raw = checked_next (trim raw)
