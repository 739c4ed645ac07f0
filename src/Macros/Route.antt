-- ===== src/Macros/Route.antt =====
-- crates/stano-route-macros/src/lib.rs: `#[get]`, `#[post]` and the others. An expansion is the list of
-- arguments of the generated `#[utoipa::path(..)]`. How tokens print, the tokens of a type, what a
-- literal means as a string, and where crates are found, are parameters.
pub mod ReturnBody
pub mod Signature
pub mod Expansion
use modular_rust_platform.Base.{
  ℕ, suc, ◌+◌, String, Bool, true, false, not, ◌&&◌, ◌||◌, Option, none, some, List, [], ◌∷◌, ◌++◌,
  map, Result, ok, err, length, drop, any, ltb, ◌==◌, str_eq, if◌then◌else◌,
}
use modular_rust_platform.Base.Text.{Text, codes, text_eq, is_some, ends_with}
use modular_rust_platform.Macros.Syntax.{
  RustType, path, trait_object, other_type, Segments, no_segments, segment, Arguments, no_arguments,
  angle_bracketed, parenthesized, GenericArguments, no_generics, type_argument, other_argument,
  last_segment, first_type, FoundCrate, CrateName, CratePath,
}
use modular_rust_platform.Macros.Keys.{
  TokenTree, literal, Tokens, AttrKey, split_top_level_keys, group_inner_tokens,
  entry_has_status_200,
}
use modular_rust_platform.Macros.Placeholders.{path_placeholders}

-- `none` is the panic of a crate that depends on none of the packages.
unfoldable pub stano_routes_path : CrateName → Option CratePath
stano_routes_path crate_name = elim (crate_name "stano-axum") [
  | some root ↦ some (record { root = root; rest = [] })
  | none ↦ elim (crate_name "stano-launcher") [
    | some root ↦ some (record { root = root; rest = "stano_axum" ∷ [] })
    | none ↦ elim (crate_name "stano-starter-rest") [
      | some root ↦ some (record { root = root; rest = "stano_axum" ∷ [] })
      | none ↦ none
    ]
  ]
]

-- The only argument, if it is a type.
abbrev single_type : GenericArguments → Option RustType
single_type (type_argument ty no_generics) = some ty
single_type _ = none

unfoldable pub wrapped : String → Option (String × Arguments) → Option RustType
wrapped wrapper (some (ident, angle_bracketed args)) =
    if str_eq ident wrapper then single_type args else none
wrapped wrapper _ = none

unfoldable pub extract_type_arg : RustType → String → Option RustType
unfolding wrapped last_segment
extract_type_arg (path segs) wrapper = wrapped wrapper (last_segment segs)
extract_type_arg _ wrapper = none

unfoldable pub result_ok : Option (String × Arguments) → Option RustType
result_ok (some (ident, angle_bracketed args)) =
    if str_eq ident "Result" then first_type args else none
result_ok _ = none

unfoldable pub extract_result_ok_arg : RustType → Option RustType
unfolding result_ok last_segment
extract_result_ok_arg (path segs) = result_ok (last_segment segs)
extract_result_ok_arg _ = none

abbrev primitive_path_param_types : List String
primitive_path_param_types =
    "String" ∷ "bool" ∷ "char" ∷ "i8" ∷ "i16" ∷ "i32" ∷ "i64" ∷ "i128" ∷ "isize" ∷ "u8" ∷ "u16"
    ∷ "u32" ∷ "u64" ∷ "u128" ∷ "usize" ∷ "f32" ∷ "f64" ∷ []

-- `PathArguments::is_empty`
abbrev no_args : Arguments → Bool
no_args no_arguments = true
no_args (angle_bracketed no_generics) = true
no_args _ = false

unfoldable pub is_primitive_path_param_type : RustType → Bool
unfolding ends_with
is_primitive_path_param_type (path (segment name args no_segments)) =
    no_args args
    && (any (str_eq name) primitive_path_param_types || ends_with (codes name) (codes "Id"))
is_primitive_path_param_type _ = false

pub data FnArg : Type 0 where
  receiver : FnArg
  typed : RustType → FnArg

pub data ReturnType : Type 0 where
  default : ReturnType
  returns : RustType → ReturnType

pub record ItemFn : Type 0 where
  pub ident : String
  pub inputs : List FnArg
  pub output : ReturnType

pub record SignatureInference : Type 0 where
  pub app_json_types : List RustType
  pub app_path_type : Option RustType
  pub app_path_count : ℕ
  pub app_query_type : Option RustType
  pub app_query_count : ℕ

abbrev get_or_insert : Option RustType → RustType → Option RustType
get_or_insert none ty = some ty
get_or_insert (some first) ty = some first

-- The three `if let` of one turn of the loop, each with what its `extract_type_arg` gives.
unfoldable pub push_json : Option RustType → SignatureInference → SignatureInference
push_json none s = s
push_json (some inner) s = record s { app_json_types = s.app_json_types ++ inner ∷ [] }

unfoldable pub count_path : Option RustType → SignatureInference → SignatureInference
count_path none s = s
count_path (some inner) s = record s {
  app_path_count = s.app_path_count + 1;
  app_path_type = get_or_insert s.app_path_type inner;
}

unfoldable pub count_query : Option RustType → SignatureInference → SignatureInference
count_query none s = s
count_query (some inner) s = record s {
  app_query_count = s.app_query_count + 1;
  app_query_type = get_or_insert s.app_query_type inner;
}

unfoldable pub inspect_inputs : List FnArg → SignatureInference → SignatureInference
unfolding extract_type_arg push_json count_path count_query
inspect_inputs [] s = s
inspect_inputs (receiver ∷ inputs) s = inspect_inputs inputs s
inspect_inputs (typed ty ∷ inputs) s =
    let json_counted = push_json (extract_type_arg ty "AppJson") s in
    let path_counted = count_path (extract_type_arg ty "AppPath") json_counted in
    inspect_inputs inputs (count_query (extract_type_arg ty "AppQuery") path_counted)

unfoldable pub inspect_signature : ItemFn → SignatureInference
unfolding inspect_inputs
inspect_signature func = inspect_inputs func.inputs record {
  app_json_types = [];
  app_path_type = none;
  app_path_count = 0;
  app_query_type = none;
  app_query_count = 0;
}

unfoldable pub response_body : RustType → Option RustType
unfolding extract_type_arg extract_result_ok_arg
response_body ty = elim (extract_type_arg ty "AppJson") [
  | some inner ↦ some inner
  | none ↦ elim (extract_result_ok_arg ty) [
    | none ↦ none
    | some ok_ty ↦ extract_type_arg ok_ty "AppJson"
  ]
]

unfoldable pub inferred_response_body : ReturnType → Option RustType
unfolding response_body
inferred_response_body default = none
inferred_response_body (returns ty) = response_body ty

-- The compile errors, and `missing_dependency`, the panic of `stano_routes_path`.
pub data RouteError : Type 0 where
  not_a_function more_than_one_json more_than_one_path more_than_one_query : RouteError
  duplicate_200 no_response missing_dependency : RouteError
  request_body_conflict : Text → Text → RouteError

-- `("name" = T, Path)`, or a type with its own parameters.
pub data Param : Type 0 where
  path_param : Text → RustType → Param
  into_params : RustType → Param

-- An argument of `#[utoipa::path(..)]`. `responses` has the inferred 200 entry, if any, and the tokens
-- of the explicit ones; `params` likewise.
pub data Argument : Type 0 where
  method_key operation_id : String → Argument
  pass_through : Tokens → Argument
  explicit_request_body : Tokens → Argument
  inferred_request_body : RustType → Argument
  responses : Option RustType → Option Tokens → Argument
  params : List Param → Option Tokens → Argument

-- `quote!(#ty)`, `to_string`, and `parse_str::<LitStr>(..).value()`.
pub record TokenLibrary : Type 0 where
  pub type_tokens : RustType → Tokens
  pub show : Tokens → Text
  pub literal_value : Text → Option Text

-- `keys.iter().find(|k| k.name == name)`
unfoldable pub find_key : String → List AttrKey → Option AttrKey
find_key name [] = none
find_key name (k ∷ keys) =
    let rest = find_key name keys in if str_eq k.name name then some k else rest

abbrev remove_spaces : Text → Text
remove_spaces [] = []
remove_spaces (c ∷ t) = if c == b' ' then remove_spaces t else c ∷ remove_spaces t

module _ (lib : TokenLibrary) where
  open lib use {type_tokens, show, literal_value}

  unfoldable pub normalize : Tokens → Text
  normalize tokens = remove_spaces (show tokens)

  unfoldable pub first_literal : Tokens → Option Text
  first_literal [] = none
  first_literal (literal text ∷ rest) = literal_value text
  first_literal (_ ∷ rest) = first_literal rest

  unfoldable pub find_path_literal : List AttrKey → Option Text
  unfolding find_key first_literal
  find_path_literal keys = elim (find_key "path" keys) [
    | none ↦ none
    | some k ↦ first_literal k.tokens
  ]
