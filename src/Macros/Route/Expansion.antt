-- ===== src/Macros/Route/Expansion.antt =====
-- `route_method_fn` of crates/stano-route-macros/src/lib.rs: the checks in their order, and the arguments of
-- the generated `#[utoipa::path(..)]`.
pub mod Accepted
pub mod Bodies
pub mod Documented
pub mod Passed
use modular_rust_platform.Base.{
  ℕ, String, Bool, true, false, not, ◌&&◌, ◌||◌, Option, none, some, List, [], ◌∷◌, ◌++◌, map,
  Result, ok, err, length, drop, any, ltb, ◌==◌, str_eq, if◌then◌else◌, and_then,
}
use modular_rust_platform.Base.Text.{Text, codes, text_eq, is_some}
use modular_rust_platform.Macros.Syntax.{RustType, CrateName, CratePath}
use modular_rust_platform.Macros.Keys.{
  TokenTree, Tokens, AttrKey, split_top_level_keys, group_inner_tokens, entry_has_status_200,
}
use modular_rust_platform.Macros.Placeholders.{path_placeholders}
use modular_rust_platform.Macros.Route.{
  TokenLibrary, stano_routes_path, is_primitive_path_param_type, ItemFn, SignatureInference,
  inspect_signature, inferred_response_body, RouteError, more_than_one_json, more_than_one_path,
  more_than_one_query, duplicate_200, no_response, missing_dependency, not_a_function,
  request_body_conflict, Param, path_param, into_params, Argument, method_key, operation_id,
  pass_through, explicit_request_body, inferred_request_body, responses, params, find_key,
  normalize, find_path_literal,
}

-- The three checks of the signature.
unfoldable pub check_counts : SignatureInference → Result {0, 0} Unit RouteError
check_counts sig =
    if ltb 1 (length sig.app_json_types)
    then err more_than_one_json
    else if ltb 1 sig.app_path_count
    then err more_than_one_path
    else if ltb 1 sig.app_query_count
    then err more_than_one_query
    else ok tt

abbrev pub first : List RustType → Option RustType
first [] = none
first (ty ∷ types) = some ty

-- The tokens in the group of a key.
unfoldable pub key_inner : String → List AttrKey → Option Tokens
unfolding find_key group_inner_tokens
key_inner name keys = elim (find_key name keys) [
  | none ↦ none
  | some k ↦ group_inner_tokens k.tokens
]

abbrev key_tokens : List AttrKey → Tokens
key_tokens [] = []
key_tokens (k ∷ keys) = k.tokens ++ key_tokens keys

-- Whether an entry of an explicit `responses(..)` is for status 200.
unfoldable pub lists_200 : Tokens → Bool
unfolding split_top_level_keys entry_has_status_200
lists_200 inner = any entry_has_status_200 (key_tokens (split_top_level_keys inner))

unfoldable pub responses_argument : Option RustType → Option Tokens → Result Argument RouteError
unfolding lists_200
responses_argument none none = err no_response
responses_argument none (some inner) = ok (responses none (some inner))
responses_argument (some body) none = ok (responses (some body) none)
responses_argument (some body) (some inner) =
    if lists_200 inner then err duplicate_200 else ok (responses (some body) (some inner))

abbrev is_inferred_key : String → Bool
is_inferred_key name = str_eq name "request_body" || str_eq name "responses" || str_eq name "params"

unfoldable pub pass_through_keys : List AttrKey → List Argument
pass_through_keys [] = []
pass_through_keys (k ∷ keys) =
    let rest = pass_through_keys keys in
    if is_inferred_key k.name then rest else pass_through k.tokens ∷ rest

abbrev query_params : Option RustType → List Param
query_params none = []
query_params (some query_ty) = into_params query_ty ∷ []

abbrev path_param_of : List Text → RustType → Param
path_param_of (name ∷ []) path_ty =
    if is_primitive_path_param_type path_ty then path_param name path_ty else into_params path_ty
path_param_of _ path_ty = into_params path_ty

abbrev placeholders_of : Option Text → List Text
placeholders_of none = []
placeholders_of (some path_lit) = path_placeholders path_lit

unfoldable pub inferred_params : Option Text → SignatureInference → List Param
unfolding is_primitive_path_param_type path_placeholders
inferred_params path_lit sig = elim sig.app_path_type [
  | none ↦ query_params sig.app_query_type
  | some path_ty ↦
      path_param_of (placeholders_of path_lit) path_ty ∷ query_params sig.app_query_type
]

unfoldable pub params_argument : List Param → Option Tokens → Option Argument
params_argument [] none = none
params_argument [] (some inner) = some (params [] (some inner))
params_argument (p ∷ ps) inner = some (params (p ∷ ps) inner)

abbrev pub as_list : Option Argument → List Argument
as_list none = []
as_list (some argument) = argument ∷ []

-- The generated item: the attribute's arguments, the handler, and the crate whose `inventory` gets it.
pub record Route : Type 0 where
  pub arguments : List Argument
  pub handler : ItemFn
  pub stano_routes : CratePath

module _ (lib : TokenLibrary) where
  -- `request_body` `=` is skipped in the explicit key.
  unfoldable pub agreed_body : Tokens → RustType → Result (Option Argument) RouteError
  unfolding normalize text_eq
  agreed_body explicit inferred =
      let explicit_norm = normalize lib (drop 2 explicit) in
      let inferred_norm = normalize lib (lib.type_tokens inferred) in
      if not (text_eq explicit_norm inferred_norm)
      then err (request_body_conflict explicit_norm inferred_norm)
      else ok (some (inferred_request_body inferred))

  unfoldable pub request_body_argument :
      Option AttrKey → Option RustType → Result (Option Argument) RouteError
  unfolding agreed_body
  request_body_argument none none = ok none
  request_body_argument none (some inferred) = ok (some (inferred_request_body inferred))
  request_body_argument (some explicit) none = ok (some (explicit_request_body explicit.tokens))
  request_body_argument (some explicit) (some inferred) = agreed_body explicit.tokens inferred

  unfoldable pub path_args :
      String
      → ItemFn
      → List AttrKey
      → SignatureInference
      → Option Argument
      → Argument
      → List Argument
  unfolding pass_through_keys params_argument inferred_params find_path_literal key_inner
  path_args method func keys sig body response =
      let parameters =
        params_argument (inferred_params (find_path_literal lib keys) sig)
          (key_inner "params" keys) in
      method_key method
      ∷ operation_id func.ident
      ∷ (pass_through_keys keys ++ as_list body ++ response ∷ as_list parameters)

  -- The crate is looked for last.
  unfoldable pub finish : CrateName → ItemFn → List Argument → Result Route RouteError
  unfolding stano_routes_path
  finish crate_name func arguments = elim (stano_routes_path crate_name) [
    | none ↦ err missing_dependency
    | some root ↦ ok (record { arguments = arguments; handler = func; stano_routes = root })
  ]

  unfoldable pub expand :
      CrateName → String → ItemFn → List AttrKey → SignatureInference → Result Route RouteError
  unfolding check_counts key_inner request_body_argument responses_argument path_args finish
      inferred_response_body
  expand crate_name method func keys sig = and_then (check_counts sig) (λ checked.
      and_then (request_body_argument (find_key "request_body" keys) (first sig.app_json_types))
        (λ body.
          and_then
            (responses_argument (inferred_response_body func.output) (key_inner "responses" keys))
            (λ response. finish crate_name func (path_args method func keys sig body response))))

  unfoldable pub route_method_fn : CrateName → String → Tokens → ItemFn → Result Route RouteError
  unfolding expand inspect_signature
  route_method_fn crate_name method attr func =
      expand crate_name method func (split_top_level_keys attr) (inspect_signature func)

  -- `none` is an item that is not a function.
  unfoldable pub route_method_impl :
      CrateName → String → Tokens → Option ItemFn → Result Route RouteError
  unfolding route_method_fn
  route_method_impl crate_name method attr (some func) = route_method_fn crate_name method attr func
  route_method_impl crate_name method attr none = err not_a_function
