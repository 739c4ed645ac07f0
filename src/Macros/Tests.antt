-- ===== src/Macros/Tests.antt =====
-- Sample items: a service with a repository, an attribute list, a route pattern, and a handler.
use modular_rust_platform.Base.{
  ℕ, ◌≤◌, length, In, String, true, false, none, some, List, [], ◌∷◌, Result, ok, ◌≡◌, ◌↔◌, refl,
  str_eq, if◌then◌else◌, arith,
}
use modular_rust_platform.Base.Text.{codes}
use modular_rust_platform.Di.Context.{KeepsSafe}
use modular_rust_platform.Macros.Syntax.{
  RustType, path, trait_object, other_type, no_segments, segment, no_arguments, angle_bracketed,
  no_generics, type_argument, last_segment, itself, CrateName,
}
use modular_rust_platform.Macros.Service.{
  named, Item, struct_item, Service, stano_di_path, arc_argument, extract_arc_inner,
  is_trait_object, field_code, fields_code, struct_fields, service_struct, attribute_type,
  service_impl, trait_id, get_trait,
}
use modular_rust_platform.Macros.Service.Generated.{
  Compiler, register_service, service_impl-KeepsSafe,
}
use modular_rust_platform.Macros.Service.Accepted.{AcceptsService, service_impl_iff}
use modular_rust_platform.Macros.Keys.{
  ident, punct, literal, group, parenthesis, no_tokens, Tokens, build_attr_key,
  split_top_level_keys,
}
use modular_rust_platform.Macros.Keys.Split.{
  IsKey, plain, comma, angles, stop, join_keys, split_top_level_keys-join_keys,
}
use modular_rust_platform.Macros.Placeholders.{
  path_placeholders, Piece, fixed, placeholder, print, names, path_placeholders-print,
}
use modular_rust_platform.Macros.Route.{
  TokenLibrary, ItemFn, receiver, typed, returns, inspect_signature, method_key, operation_id,
  pass_through, inferred_request_body, responses,
}
use modular_rust_platform.Macros.Route.Signature.{
  signature_of, wrapped_types, inspect_signature_lem,
}
use modular_rust_platform.Macros.Route.ReturnBody.{ReturnsJson}
use modular_rust_platform.Macros.Route.Expansion.Passed.{passed, IsHandedOn}
use modular_rust_platform.Macros.Route.Expansion.{Route, route_method_fn}
use modular_rust_platform.Macros.Route.Expansion.Bodies.{json_bodies, ok_bodies}
use modular_rust_platform.Macros.Route.Expansion.Documented.{route_method_fn-documents}

abbrev named_type : String → RustType
named_type name = path (segment name no_arguments no_segments)

abbrev generic : String → RustType → RustType
generic name ty = path (segment name (angle_bracketed (type_argument ty no_generics)) no_segments)

abbrev parse_dyn : String → Result RustType String
parse_dyn attr = ok (trait_object attr)

abbrev from_stano : CrateName
from_stano name =
    if str_eq name "stano-di"
    then some itself
    else if str_eq name "stano-axum"
    then some itself
    else none

abbrev service_item : Item
service_item = struct_item (record {
  ident = "WidgetServiceImpl";
  fields =
      named (record { ident = "repo"; ty = generic "Arc" (trait_object "WidgetRepository") } ∷ []);
})

abbrev expanded : Service
expanded = record {
  struct_name = "WidgetServiceImpl";
  codes =
      record {
        field_name = "repo";
        field_type = generic "Arc" (trait_object "WidgetRepository");
        dependency_id = trait_id (trait_object "WidgetRepository");
        get_call = get_trait (trait_object "WidgetRepository");
      }
      ∷ [];
  trait_type = some (trait_object "dyn WidgetService");
  stano_di = record { root = itself; rest = [] };
}

expanded_service : service_impl parse_dyn from_stano "dyn WidgetService" service_item ≡ ok expanded
unfolding service_impl attribute_type service_struct stano_di_path struct_fields fields_code
    field_code is_trait_object extract_arc_inner arc_argument last_segment
expanded_service = refl

abbrev number_of : RustType → ℕ
number_of (path _) = 1
number_of (trait_object _) = 2
number_of (other_type _) = 3

abbrev numbers : Compiler
numbers = record {
  type_number = number_of;
  type_name = λ ty. "T";
  struct_number = λ name. 4;
  construct = λ name args. 5;
}

service_impl-KeepsSafe_example : KeepsSafe (register_service numbers expanded)
service_impl-KeepsSafe_example =
    service_impl-KeepsSafe numbers parse_dyn from_stano "dyn WidgetService" service_item expanded
      expanded_service

service_impl_iff_example :
    ((s : Service) × (service_impl parse_dyn from_stano "dyn WidgetService" service_item ≡ ok s))
    ↔ AcceptsService parse_dyn from_stano "dyn WidgetService" service_item
service_impl_iff_example = service_impl_iff parse_dyn from_stano "dyn WidgetService" service_item

-- `tag = T<A, B>` and `security(..)`
abbrev tag_key : Tokens
tag_key =
    ident "tag"
    ∷ punct b'='
    ∷ ident "T"
    ∷ punct b'<'
    ∷ ident "A"
    ∷ punct b','
    ∷ ident "B"
    ∷ punct b'>'
    ∷ []

abbrev security_key : Tokens
security_key = ident "security" ∷ group parenthesis no_tokens ∷ []

tag_key-IsKey : IsKey tag_key
tag_key-IsKey = (
  (λ e. cc),
  plain tt (
      plain ((λ e. absurd (omega arith)), (λ e. absurd (omega arith)), λ e. absurd (omega arith))
        (plain tt (angles (plain tt (comma (plain tt stop))) stop refl))),
)

security_key-IsKey : IsKey security_key
security_key-IsKey = ((λ e. cc), plain tt (plain tt stop))

split_top_level_keys-join_keys_example :
    split_top_level_keys (join_keys (tag_key ∷ security_key ∷ []))
    ≡ build_attr_key tag_key ∷ build_attr_key security_key ∷ []
split_top_level_keys-join_keys_example =
    split_top_level_keys-join_keys (tag_key ∷ security_key ∷ [])
      (tag_key-IsKey, (security_key-IsKey, tt))

abbrev pattern_pieces : List Piece
pattern_pieces =
    fixed (codes "/w/")
    ∷ placeholder false (codes "id")
    ∷ fixed (codes "/")
    ∷ placeholder true (codes "rest")
    ∷ []

path_placeholders-print_example :
    path_placeholders (codes "/w/{id}/{*rest}") ≡ codes "id" ∷ codes "rest" ∷ []
unfolding print names
path_placeholders-print_example = path_placeholders-print pattern_pieces (ground arith)

-- `async fn create(&self, AppJson<Request>) -> Result<AppJson<Response>, ApiError>`
abbrev handler_fn : ItemFn
handler_fn = record {
  ident = "create";
  inputs = receiver ∷ typed (generic "AppJson" (named_type "Request")) ∷ [];
  output = returns (
      path (
        segment "Result"
          (angle_bracketed (
            type_argument (generic "AppJson" (named_type "Response"))
              (type_argument (named_type "ApiError") no_generics)))
          no_segments));
}

abbrev tokens : TokenLibrary
tokens = record {
  type_tokens = λ ty. ident "T" ∷ [];
  show = λ ts. [];
  literal_value = λ text. some text;
}

abbrev create_attr : Tokens
create_attr = ident "path" ∷ punct b'=' ∷ literal (codes "/widgets") ∷ []

abbrev created : Route
created = record {
  arguments =
      method_key "post"
      ∷ operation_id "create"
      ∷ pass_through create_attr
      ∷ inferred_request_body (named_type "Request")
      ∷ responses (some (named_type "Response")) none
      ∷ [];
  handler = handler_fn;
  stano_routes = record { root = itself; rest = [] };
}

route_method_fn-create :
    route_method_fn tokens from_stano "post" create_attr handler_fn ≡ ok created
unfolding route_method_fn
route_method_fn-create = refl

route_method_fn-documents_example :
    (json_bodies created.arguments ≡ named_type "Request" ∷ [])
    × (length (ok_bodies created.arguments) ≤ 1)
    × ((body : RustType)
        → In body (ok_bodies created.arguments) ↔ ReturnsJson handler_fn.output body)
    × ((tokens : Tokens)
        → In tokens (passed created.arguments)
          ↔ IsHandedOn (split_top_level_keys create_attr) tokens)
    × (created.handler ≡ handler_fn)
unfolding wrapped_types
route_method_fn-documents_example =
    route_method_fn-documents tokens from_stano "post" create_attr handler_fn created
      route_method_fn-create

inspect_signature_lem_example : inspect_signature handler_fn ≡ signature_of handler_fn.inputs
inspect_signature_lem_example = inspect_signature_lem handler_fn
