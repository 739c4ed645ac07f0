-- ===== src/Macros/Placeholders.antt =====
-- `path_placeholders` of crates/stano-route-macros/src/lib.rs. `{` and `}` are one byte of UTF-8, so the
-- walk over the bytes is one over the code points; `skip` counts those that `i += len + 2` jumps over.
use modular_rust_platform.Base.{
  ℕ, zero, suc, ◌+◌, Bool, true, false, none, some, List, [], ◌∷◌, ◌++◌, length, reverse,
  reverse-cons, append-nil, append_assoc, ◌==◌, if◌then◌else◌, ◌≡◌, ◌≢◌, refl, sym, ap, ◌∙◌, arith,
  All,
}
use modular_rust_platform.Base.Text.{Text, Lacks, split_once, split_once_from}

-- `name.trim_start_matches('*')`
unfoldable pub trim_stars : Text → Text
trim_stars [] = []
trim_stars (c ∷ t) = let rest = trim_stars t in if c == b'*' then rest else c ∷ t

unfoldable pub placeholders_loop : Text → ℕ → List Text
unfolding trim_stars split_once
placeholders_loop [] skip = []
placeholders_loop (c ∷ t) (suc skip) = placeholders_loop t skip
placeholders_loop (c ∷ t) zero =
    let plain = placeholders_loop t zero in
    if c == b'{'
    then elim (split_once b'}' t) [
      | none ↦ plain
      | some (name, _) ↦ trim_stars name ∷ placeholders_loop t (suc (length name))
    ]
    else plain

unfoldable pub path_placeholders : Text → List Text
unfolding placeholders_loop
path_placeholders path_lit = placeholders_loop path_lit 0

-- A piece of a route pattern: literal text, or a placeholder, which may be a catch-all `{*name}`.
pub data Piece : Type 0 where
  fixed : Text → Piece
  placeholder : Bool → Text → Piece

abbrev stars : Bool → Text → Text
stars true name = b'*' ∷ name
stars false name = name

abbrev pub print_piece : Piece → Text
print_piece (fixed text) = text
print_piece (placeholder catch_all name) = b'{' ∷ (stars catch_all name ++ b'}' ∷ [])

unfoldable pub print : List Piece → Text
print [] = []
print (p ∷ ps) = print_piece p ++ print ps

abbrev NoStar : Text → Type 0
NoStar [] = Unit
NoStar (c ∷ t) = c ≢ b'*'

-- Literal text has no brace; a name has no closing brace and does not begin with a star.
abbrev pub IsPiece : Piece → Type 0
IsPiece (fixed text) = Lacks b'{' text
IsPiece (placeholder catch_all name) = Lacks b'}' name × NoStar name

unfoldable pub names : List Piece → List Text
names [] = []
names (fixed text ∷ ps) = names ps
names (placeholder catch_all name ∷ ps) = name ∷ names ps

loop-fixed :
    (text rest : Text)
    → Lacks b'{' text
    → placeholders_loop (text ++ rest) 0 ≡ placeholders_loop rest 0
unfolding placeholders_loop
loop-fixed [] rest h = refl
loop-fixed (c ∷ text) rest (h, hs) = ground (arith, loop-fixed text rest hs)

loop-skip :
    (name rest : Text) (k : ℕ)
    → placeholders_loop (name ++ rest) (length name + k) ≡ placeholders_loop rest k
unfolding placeholders_loop
loop-skip [] rest k = ap (placeholders_loop rest) (omega arith)
loop-skip (c ∷ name) rest k =
    ap (placeholders_loop (c ∷ (name ++ rest))) shifted ∙ loop-skip name rest k
  where
    shifted : suc (length name) + k ≡ suc (length name + k)
    shifted = omega arith

split_once_from-Lacks :
    (name rest current : Text)
    → Lacks b'}' name
    → split_once_from b'}' current (name ++ b'}' ∷ rest) ≡ some (reverse current ++ name, rest)
unfolding split_once_from
split_once_from-Lacks [] rest current h =
    ap (λ t. some (t, rest)) (sym (append-nil (reverse current)))
split_once_from-Lacks (c ∷ name) rest current (h, hs) =
    ground (arith, split_once_from-Lacks name rest (c ∷ current) hs, moved)
  where
    moved : reverse (c ∷ current) ++ name ≡ reverse current ++ c ∷ name
    moved = rw (reverse-cons c current) (append_assoc (reverse current) (c ∷ []) name)

trim_stars-stars :
    (catch_all : Bool) (name : Text) → NoStar name → trim_stars (stars catch_all name) ≡ name
unfolding trim_stars
trim_stars-stars true [] h = refl
trim_stars-stars true (c ∷ name) h = ground arith
trim_stars-stars false [] h = refl
trim_stars-stars false (c ∷ name) h = ground arith

loop-braces :
    (inner rest : Text)
    → Lacks b'}' inner
    → placeholders_loop (b'{' ∷ (inner ++ b'}' ∷ rest)) 0
      ≡ trim_stars inner ∷ placeholders_loop rest 0
unfolding placeholders_loop split_once
loop-braces inner rest h =
    rw (split_once_from-Lacks inner rest [] h) (ap (trim_stars inner ∷◌) skipped)
  where
    counted : suc (length inner) ≡ length inner + 1
    counted = omega arith

    skipped :
        placeholders_loop (inner ++ b'}' ∷ rest) (suc (length inner)) ≡ placeholders_loop rest 0
    skipped =
        ap (placeholders_loop (inner ++ b'}' ∷ rest)) counted ∙ loop-skip inner (b'}' ∷ rest) 1

stars-Lacks : (catch_all : Bool) (name : Text) → Lacks b'}' name → Lacks b'}' (stars catch_all name)
stars-Lacks true name h = ((λ e. absurd (omega arith)), h)
stars-Lacks false name h = h

loop-placeholder :
    (catch_all : Bool) (name rest : Text)
    → Lacks b'}' name
    → NoStar name
    → placeholders_loop (print_piece (placeholder catch_all name) ++ rest) 0
      ≡ name ∷ placeholders_loop rest 0
loop-placeholder catch_all name rest h n =
    ap (λ t. placeholders_loop (b'{' ∷ t) 0) (append_assoc (stars catch_all name) (b'}' ∷ []) rest)
    ∙ loop-braces (stars catch_all name) rest (stars-Lacks catch_all name h)
    ∙ ap (◌∷ placeholders_loop rest 0) (trim_stars-stars catch_all name n)

-- The placeholders of a printed pattern are the names of its placeholders, in their order, catch-alls
-- without their star.
pub path_placeholders-print :
    (pieces : List Piece) → All IsPiece pieces → path_placeholders (print pieces) ≡ names pieces
unfolding path_placeholders print names
path_placeholders-print [] h = refl
path_placeholders-print (fixed text ∷ ps) (h, hs) =
    loop-fixed text (print ps) h ∙ path_placeholders-print ps hs
path_placeholders-print (placeholder catch_all name ∷ ps) ((h, n), hs) =
    loop-placeholder catch_all name (print ps) h n ∙ ap (name ∷◌) (path_placeholders-print ps hs)
