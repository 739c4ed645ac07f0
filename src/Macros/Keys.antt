-- ===== src/Macros/Keys.antt =====
-- crates/stano-route-macros/src/lib.rs: the keys of an attribute list. `proc_macro2` gives the tokens: a
-- group is one token. The angle depth is a number without the bound of an `i32`.
pub mod Split
use modular_rust_platform.Base.{
  ℕ, ◌+◌, ◌-◌, String, Bool, true, false, ◌&&◌, ◌||◌, Option, none, some, List, [], ◌∷◌, ◌++◌, ltb,
  leb, ◌==◌, if◌then◌else◌, any, str_eq,
}
use modular_rust_platform.Base.Text.{Text, codes, strip_prefix}

pub data Delimiter : Type 0 where
  parenthesis brace bracket none_delimiter : Delimiter

mutual
  pub data TokenTree : Type 0 where
    ident : String → TokenTree
    punct : ℕ → TokenTree
    literal : Text → TokenTree
    group : Delimiter → TokenStream → TokenTree

  pub data TokenStream : Type 0 where
    no_tokens : TokenStream
    token : TokenTree → TokenStream → TokenStream

abbrev pub Tokens : Type 0
Tokens = List TokenTree

-- The iteration over a stream.
abbrev pub to_list : TokenStream → Tokens
to_list no_tokens = []
to_list (token t rest) = t ∷ to_list rest

pub record AttrKey : Type 0 where
  pub name : String
  pub tokens : Tokens

abbrev pub first_name : Tokens → String
first_name (ident name ∷ _) = name
first_name _ = ""

unfoldable pub build_attr_key : Tokens → AttrKey
build_attr_key tokens = record { name = first_name tokens; tokens = tokens }

-- What the loop does with a token at an angle depth: end the key, or go on at a depth.
pub data Turn : Type 0 where
  separate : Turn
  keep : ℕ → Turn

unfoldable pub turn : TokenTree → ℕ → Turn
turn (punct c) depth =
    if c == b'<'
    then keep (depth + 1)
    else if c == b'>' && ltb 0 depth
    then keep (depth - 1)
    else if c == b',' && depth == 0
    then separate
    else keep depth
turn _ depth = keep depth

-- `if !current.is_empty() { keys.push(..) }`
unfoldable pub push_key : Tokens → List AttrKey → List AttrKey
unfolding build_attr_key
push_key [] keys = keys
push_key (t ∷ current) keys = build_attr_key (t ∷ current) ∷ keys

unfoldable pub split_loop : Tokens → Tokens → ℕ → List AttrKey
split_loop [] current depth = push_key current []
split_loop (t ∷ rest) current depth = elim (turn t depth) [
  | separate ↦ push_key current (split_loop rest [] depth)
  | keep next ↦ split_loop rest (current ++ t ∷ []) next
]

unfoldable pub split_top_level_keys : Tokens → List AttrKey
unfolding split_loop push_key turn
split_top_level_keys attr = split_loop attr [] 0

-- The tokens inside `key(..)`, if the key is followed by one group only.
unfoldable pub group_inner_tokens : Tokens → Option Tokens
group_inner_tokens (key ∷ group delimiter stream ∷ []) = some (to_list stream)
group_inner_tokens _ = none

abbrev is_ascii_alphabetic : ℕ → Bool
is_ascii_alphabetic c = leb b'a' c && leb c b'z' || leb b'A' c && leb c b'Z'

abbrev all_alphabetic : Text → Bool
all_alphabetic [] = true
all_alphabetic (c ∷ t) = is_ascii_alphabetic c && all_alphabetic t

-- `200`, perhaps with a suffix such as `u16`.
unfoldable pub is_200 : TokenTree → Bool
unfolding strip_prefix
is_200 (literal text) = elim (strip_prefix (codes "200") text) [
  | none ↦ false
  | some rest ↦ all_alphabetic rest
]
is_200 _ = false

unfoldable pub entry_has_status_200 : TokenTree → Bool
unfolding split_top_level_keys is_200
entry_has_status_200 (group parenthesis stream) =
    any (λ key. str_eq key.name "status" && any is_200 key.tokens)
      (split_top_level_keys (to_list stream))
entry_has_status_200 _ = false
