-- ===== src/Macros/Keys/Split.antt =====
-- Splitting an attribute list gives back the keys that were written.
use modular_rust_platform.Base.{
  ℕ, suc, ◌<◌, Bool, true, false, List, [], ◌∷◌, ◌++◌, append-nil, append_assoc, map, ◌≡◌, ◌≢◌,
  refl, sym, ap, ◌∙◌, arith, All,
}
use modular_rust_platform.Macros.Keys.{
  TokenTree, ident, punct, literal, group, Tokens, AttrKey, build_attr_key, keep, turn, push_key,
  split_loop, split_top_level_keys,
}

-- A token that is none of the three that the splitting looks at.
abbrev pub IsPlain : TokenTree → Type 0
IsPlain (punct c) = (c ≢ b'<') × (c ≢ b'>') × (c ≢ b',')
IsPlain _ = Unit

-- A value as it is written in an attribute: generic arguments in balanced angle brackets, and commas
-- inside such brackets only (with the flag, also here).
pub data Nested : Bool → Tokens → Type 0 where
  stop : {inside : Bool} → Nested inside []
  plain :
      {inside : Bool} {t : TokenTree} {rest : Tokens}
      → IsPlain t
      → Nested inside rest
      → Nested inside (t ∷ rest)
  comma : {rest : Tokens} → Nested true rest → Nested true (punct b',' ∷ rest)
  angles :
      {inside : Bool} {inner rest ts : Tokens}
      → Nested true inner
      → Nested inside rest
      → ts ≡ punct b'<' ∷ (inner ++ punct b'>' ∷ rest)
      → Nested inside ts

abbrev pub IsKey : Tokens → Type 0
IsKey ts = (ts ≢ []) × Nested false ts

-- The keys, with a comma between any two.
pub join_keys : List Tokens → Tokens
join_keys [] = []
join_keys (k ∷ []) = k
join_keys (k ∷ l ∷ ks) = k ++ punct b',' ∷ join_keys (l ∷ ks)

abbrev AtLevel : Bool → ℕ → Type 0
AtLevel true depth = 0 < depth
AtLevel false depth = depth ≡ 0

turn_plain : (t : TokenTree) (depth : ℕ) → IsPlain t → turn t depth ≡ keep depth
unfolding turn
turn_plain (punct c) depth h = ground arith
turn_plain (ident name) depth h = refl
turn_plain (literal text) depth h = refl
turn_plain (group d stream) depth h = refl

split_loop_keep :
    (t : TokenTree) (rest current : Tokens) (depth next : ℕ)
    → turn t depth ≡ keep next
    → split_loop (t ∷ rest) current depth ≡ split_loop rest (current ++ t ∷ []) next
unfolding split_loop
split_loop_keep t rest current depth next e = rw (e, split_loop) refl

split_loop-Nested :
    {inside : Bool} {ts : Tokens} (after current : Tokens) (depth : ℕ)
    → Nested inside ts
    → AtLevel inside depth
    → split_loop (ts ++ after) current depth ≡ split_loop after (current ++ ts) depth
split_loop-Nested after current depth stop level = rw append-nil refl
split_loop-Nested after current depth (plain {inside} {t} {rest} p n) level =
    split_loop_keep t (rest ++ after) current depth depth (turn_plain t depth p)
    ∙ split_loop-Nested after (current ++ t ∷ []) depth n level
    ∙ ap (λ c. split_loop after c depth) (append_assoc current (t ∷ []) rest)
split_loop-Nested after current depth (comma {rest} n) level =
    split_loop_keep (punct b',') (rest ++ after) current depth depth (unfold turn in ground arith)
    ∙ split_loop-Nested after (current ++ punct b',' ∷ []) depth n level
    ∙ ap (λ c. split_loop after c depth) (append_assoc current (punct b',' ∷ []) rest)
split_loop-Nested after current depth (angles {inside} {inner} {rest} n m e) level =
    let open_bracket =
      split_loop_keep (punct b'<') (inner ++ punct b'>' ∷ (rest ++ after)) current depth (suc depth)
        (unfold turn in ground arith) in
    let within =
      split_loop-Nested (punct b'>' ∷ (rest ++ after)) (current ++ punct b'<' ∷ []) (suc depth) n
        (omega arith) in
    let seen = (current ++ punct b'<' ∷ []) ++ inner in
    let close_bracket =
      split_loop_keep (punct b'>') (rest ++ after) seen (suc depth) depth
        (unfold turn in ground arith) in
    let beyond = split_loop-Nested after (seen ++ punct b'>' ∷ []) depth m level in
    let spelled : (seen ++ punct b'>' ∷ []) ++ rest
        ≡ current ++ punct b'<' ∷ (inner ++ punct b'>' ∷ rest) =
      simp append_assoc in
    rw e (
      ap (λ x. split_loop (punct b'<' ∷ x) current depth)
        (append_assoc inner (punct b'>' ∷ rest) after)
      ∙ open_bracket
      ∙ within
      ∙ close_bracket
      ∙ beyond
      ∙ ap (λ c. split_loop after c depth) spelled)

push_key-build :
    (k : Tokens) (keys : List AttrKey) → k ≢ [] → push_key k keys ≡ build_attr_key k ∷ keys
unfolding push_key
push_key-build [] keys h = absurd (h refl)
push_key-build (t ∷ k) keys h = refl

-- Keys that are each a value written with balanced angle brackets, with commas inside those only, are
-- split from one another exactly at the commas between them, whatever groups and generic arguments
-- they hold.
pub split_top_level_keys-join_keys :
    (keys : List Tokens)
    → All IsKey keys
    → split_top_level_keys (join_keys keys) ≡ map build_attr_key keys
unfolding split_top_level_keys join_keys
split_top_level_keys-join_keys [] h = refl
split_top_level_keys-join_keys (k ∷ []) ((full, nested), h) =
    ap (λ ts. split_loop ts [] 0) (sym (append-nil k))
    ∙ split_loop-Nested [] [] 0 nested refl
    ∙ push_key-build k [] full
split_top_level_keys-join_keys (k ∷ l ∷ ks) ((full, nested), h) =
    split_loop-Nested (punct b',' ∷ join_keys (l ∷ ks)) [] 0 nested refl
    ∙ push_key-build k (split_loop (join_keys (l ∷ ks)) [] 0) full
    ∙ ap (build_attr_key k ∷◌) (split_top_level_keys-join_keys (l ∷ ks) h)
