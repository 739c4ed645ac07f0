-- ===== src/Launcher/Config/Lists.antt =====
-- Lists in environment variables: what is written with commas is read back.
use modular_rust_platform.Base.{
  ℕ, String, List, [], ◌∷◌, ◌++◌, map, reverse, reverse-cons, append-nil, append_assoc, ◌≡◌, ◌≢◌,
  refl, sym, ap, ◌∙◌, arith, All,
}
use modular_rust_platform.Base.Text.{Text, trim, split, split_from, Lacks}
use modular_rust_platform.Di.Context.{Environment}
use modular_rust_platform.Launcher.Config.{get_or_default, non_empty, parse_csv, parse_csv_env}

unfoldable pub join : List Text → Text
join [] = []
join (t ∷ []) = t
join (t ∷ u ∷ ts) = t ++ b',' ∷ join (u ∷ ts)

-- Not empty, without a comma, and without white space at its ends.
abbrev pub IsItem : Text → Type 0
IsItem t = (t ≢ []) × Lacks b',' t × (trim t ≡ t)

moved : (c : ℕ) (cur t : Text) → reverse (c ∷ cur) ++ t ≡ reverse cur ++ c ∷ t
moved c cur t = rw (reverse-cons c cur) (append_assoc (reverse cur) (c ∷ []) t)

split_from-last : (cur t : Text) → Lacks b',' t → split_from b',' cur t ≡ (reverse cur ++ t) ∷ []
unfolding split_from
split_from-last cur [] h = ap (◌∷ []) (sym (append-nil (reverse cur)))
split_from-last cur (c ∷ t) (h, hs) = ground (arith, split_from-last (c ∷ cur) t hs, moved c cur t)

split_from-comma :
    (cur t rest : Text)
    → Lacks b',' t
    → split_from b',' cur (t ++ b',' ∷ rest) ≡ (reverse cur ++ t) ∷ split_from b',' [] rest
unfolding split_from
split_from-comma cur [] rest h = ap (◌∷ split_from b',' [] rest) (sym (append-nil (reverse cur)))
split_from-comma cur (c ∷ t) rest (h, hs) =
    ground (arith, split_from-comma (c ∷ cur) t rest hs, moved c cur t)

split-join : (t : Text) (ts : List Text) → All IsItem (t ∷ ts) → split b',' (join (t ∷ ts)) ≡ t ∷ ts
unfolding split join
split-join t [] ((full, plain, trimmed), hs) = split_from-last [] t plain
split-join t (u ∷ ts) ((full, plain, trimmed), hs) =
    split_from-comma [] t (join (u ∷ ts)) plain ∙ ap (t ∷◌) (split-join u ts hs)

non_empty-trim : (ts : List Text) → All IsItem ts → non_empty (map trim ts) ≡ ts
unfolding non_empty
non_empty-trim [] h = refl
non_empty-trim ([] ∷ ts) ((full, plain, trimmed), hs) = absurd (full refl)
non_empty-trim ((c ∷ t) ∷ ts) ((full, plain, trimmed), hs) =
    rw trimmed (ap ((c ∷ t) ∷◌) (non_empty-trim ts hs))

parse_csv-join : (ts : List Text) → All IsItem ts → parse_csv (join ts) ≡ ts
unfolding parse_csv join non_empty split trim
parse_csv-join [] h = refl
parse_csv-join (t ∷ ts) h =
    ap (λ l. non_empty (map trim l)) (split-join t ts h) ∙ non_empty-trim (t ∷ ts) h

-- A variable that is unset or empty is read as no items; one with items that are joined by commas, none
-- empty, with a comma or with white space at its ends, as these items in their order.
pub parse_csv_env-join :
    (environment : Environment) (key : String) (ts : List Text)
    → All IsItem ts
    → get_or_default environment key ≡ join ts
    → parse_csv_env environment key ≡ ts
unfolding parse_csv_env
parse_csv_env-join environment key ts h e = ap parse_csv e ∙ parse_csv-join ts h
