-- ===== src/Macros/Route/Expansion/Accepted.antt =====
-- Which handlers the route macros accept.
use modular_rust_platform.Base.{
  ◌≤◌, ◌⊎◌, false, ◌≡◌, ◌↔◌, Option, none, some, List, ok, length, drop, arith,
}
use modular_rust_platform.Macros.Syntax.{RustType, CrateName, CratePath}
use modular_rust_platform.Macros.Keys.{Tokens, AttrKey, split_top_level_keys}
use modular_rust_platform.Macros.Route.{
  TokenLibrary, stano_routes_path, ItemFn, ReturnType, SignatureInference, find_key, normalize,
}
use modular_rust_platform.Macros.Route.ReturnBody.{ReturnsJson}
use modular_rust_platform.Macros.Route.Signature.{signature_of}
use modular_rust_platform.Macros.Route.Expansion.{check_counts, first, key_inner, lists_200, Route}

pub check_counts_iff :
    (sig : SignatureInference)
    → ((u : Unit) × (check_counts sig ≡ ok u))
      ↔ ((length sig.app_json_types ≤ 1) × (sig.app_path_count ≤ 1) × (sig.app_query_count ≤ 1))
unfolding check_counts
check_counts_iff sig = ground arith

-- What a return type and explicit responses must be: where the type gives the body of the 200 response,
-- no explicit entry is for status 200; where it does not, there are explicit responses, whatever their
-- statuses.
abbrev pub Answers : ReturnType → Option Tokens → Type 0
Answers output inner =
    (((body : RustType) × ReturnsJson output body)
      × ((inner ≡ none)
          ⊎ ((entries : Tokens) × (inner ≡ some entries) × (lists_200 entries ≡ false))))
    ⊎ (¬ ((body : RustType) × ReturnsJson output body)
        × ((entries : Tokens) × (inner ≡ some entries)))

-- The same for the inferred body: there are responses, and an inferred 200 is the only one.
abbrev Merges : Option RustType → Option Tokens → Type 0
Merges none none = ⊥
Merges none (some inner) = Unit
Merges (some body) none = Unit
Merges (some body) (some inner) = lists_200 inner ≡ false

module _ (lib : TokenLibrary) where
  -- An explicit request body agrees with the parameter's, up to spaces.
  abbrev pub Agrees : Option AttrKey → Option RustType → Type 0
  Agrees none body = Unit
  Agrees (some explicit) none = Unit
  Agrees (some explicit) (some inferred) =
      normalize lib (drop 2 explicit.tokens) ≡ normalize lib (lib.type_tokens inferred)

  abbrev pub Accepts : CrateName → ItemFn → List AttrKey → SignatureInference → Type 0
  Accepts crate_name func keys sig =
      ((length sig.app_json_types ≤ 1) × (sig.app_path_count ≤ 1) × (sig.app_query_count ≤ 1))
      × Agrees (find_key "request_body" keys) (first sig.app_json_types)
      × Answers func.output (key_inner "responses" keys)
      × ((root : CratePath) × (stano_routes_path crate_name ≡ some root))

  abbrev pub AcceptsRoute : CrateName → Tokens → ItemFn → Type 0
  AcceptsRoute crate_name attr func =
      Accepts crate_name func (split_top_level_keys attr) (signature_of func.inputs)
