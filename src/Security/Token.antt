-- ===== src/Security/Token.antt =====
-- `extract_token` of crates/stano-axum/src/security/layer.rs. A header is what `HeaderMap::get` finds,
-- with what `HeaderValue::to_str` makes of it (`none` for a value that is not visible ASCII).
pub mod Cookies
use modular_rust_platform.Base.{Option, none, some, List, [], ◌∷◌, ◌==◌, if◌then◌else◌}
use modular_rust_platform.Base.Text.{Text, codes, text_eq, strip_prefix, trim, split, split_once}

pub record HeaderMap : Type 0 where
  pub authorization : Option (Option Text)
  pub cookie : Option (Option Text)

-- `and_then(|v| v.to_str().ok())`
abbrev pub to_str : Option (Option Text) → Option Text
to_str none = none
to_str (some value) = value

abbrev pub bearer : Text
bearer = codes "Bearer "

-- The closure of `find_map`, for the pieces of the cookie header.
unfoldable pub cookie_value : Text → Text → Option Text
unfolding trim split_once text_eq
cookie_value cookie_name pair = elim (split_once b'=' (trim pair)) [
  | none ↦ none
  | some (name, value) ↦ if text_eq name cookie_name then some value else none
]

unfoldable pub find_cookie : Text → List Text → Option Text
find_cookie cookie_name [] = none
find_cookie cookie_name (pair ∷ pairs) =
    let rest = find_cookie cookie_name pairs in
    elim (cookie_value cookie_name pair) [ some value ↦ some value | none ↦ rest ]

-- The part behind the early return for a bearer token.
unfoldable pub cookie_token : HeaderMap → Option Text → Option Text
unfolding find_cookie cookie_value split
cookie_token headers none = none
cookie_token headers (some cookie_name) = elim (to_str headers.cookie) [
  | none ↦ none
  | some cookie_header ↦ find_cookie cookie_name (split b';' cookie_header)
]

unfoldable pub bearer_token : HeaderMap → Option Text
unfolding strip_prefix
bearer_token headers = elim (to_str headers.authorization) [
  | none ↦ none
  | some s ↦ strip_prefix bearer s
]

unfoldable pub extract_token : HeaderMap → Option Text → Option Text
unfolding cookie_token bearer_token
extract_token headers cookie_name = elim (bearer_token headers) [
  | some token ↦ some token
  | none ↦ cookie_token headers cookie_name
]
