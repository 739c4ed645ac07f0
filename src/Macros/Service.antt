-- ===== src/Macros/Service.antt =====
-- crates/stano-di-macros/src/lib.rs: `#[component]` and `#[service]`. An expansion is the data that its
-- generated code is made of; `Service.Generated` is what that code does in a container. `syn::parse2`
-- and `crate_name` are parameters.
pub mod Accepted
pub mod Generated
use modular_rust_platform.Base.{
  String, Bool, true, false, not, ◌&&◌, ◌||◌, Option, none, some, List, [], ◌∷◌, ◌++◌, Result, ok,
  err, any, str_eq, if◌then◌else◌,
}
use modular_rust_platform.Macros.Syntax.{
  RustType, path, trait_object, other_type, Segments, Arguments, no_arguments, angle_bracketed,
  parenthesized, GenericArguments, last_segment, first_type, is_ident, FoundCrate, itself,
  named_crate, CrateName, CratePath,
}

-- The packages that re-export `stano_di`, each with the path to it.
abbrev candidates : List (String × List String)
candidates =
    ("stano-starter", [])
    ∷ ("stano-starter-domain", "stano_starter" ∷ [])
    ∷ ("stano-starter-rest", [])
    ∷ ("stano-starter-service", "stano_starter" ∷ [])
    ∷ []

unfoldable pub first_candidate : CrateName → List (String × List String) → Option CratePath
first_candidate crate_name [] = none
first_candidate crate_name ((pkg, extra) ∷ rest) =
    let later = first_candidate crate_name rest in
    elim (crate_name pkg) [
      | some found ↦ some (record { root = found; rest = extra ++ "stano_di" ∷ [] })
      | none ↦ later
    ]

-- `none` is the panic of a crate that depends on none of the packages.
unfoldable pub stano_di_path : CrateName → Option CratePath
unfolding first_candidate
stano_di_path crate_name = elim (crate_name "stano-di") [
  | some found ↦ some (record { root = found; rest = [] })
  | none ↦ first_candidate crate_name candidates
]

-- The compile errors, and `missing_dependency`, the panic of `stano_di_path`.
pub data MacroError : Type 0 where
  component_on_other service_on_other unnamed_fields missing_send_sync missing_dependency :
      MacroError
  bad_trait_type : String → MacroError
  field_not_arc : RustType → MacroError

-- `TypeParamBound`: a trait by its path, or a lifetime.
pub data Bound : Type 0 where
  trait_bound : Segments → Bound
  other_bound : String → Bound

pub record ItemTrait : Type 0 where
  pub ident : String
  pub supertraits : List Bound

pub record Field : Type 0 where
  pub ident : String
  pub ty : RustType

pub data Fields : Type 0 where
  named : List Field → Fields
  unit : Fields
  unnamed : List RustType → Fields

pub record ItemStruct : Type 0 where
  pub ident : String
  pub fields : Fields

pub data Item : Type 0 where
  struct_item : ItemStruct → Item
  trait_item : ItemTrait → Item
  other_item : String → Item

-- The two `impl`s for `dyn Trait`.
pub record Component : Type 0 where
  pub trait_name : String
  pub stano_di : CratePath

abbrev is_bound : String → Bound → Bool
is_bound marker (trait_bound segments) = is_ident segments marker
is_bound marker (other_bound tokens) = false

unfoldable pub component_trait : CrateName → ItemTrait → Result Component MacroError
unfolding stano_di_path
component_trait crate_name def =
    if not (any (is_bound "Send") def.supertraits) || not (any (is_bound "Sync") def.supertraits)
    then err missing_send_sync
    else elim (stano_di_path crate_name) [
      | none ↦ err missing_dependency
      | some root ↦ ok (record { trait_name = def.ident; stano_di = root })
    ]

unfoldable pub component_impl : CrateName → Item → Result Component MacroError
unfolding component_trait
component_impl crate_name (trait_item def) = component_trait crate_name def
component_impl crate_name (struct_item def) = err component_on_other
component_impl crate_name (other_item tokens) = err component_on_other

-- The type argument, if the path ends in `Arc<T, ..>`.
unfoldable pub arc_argument : Option (String × Arguments) → Option RustType
arc_argument none = none
arc_argument (some (ident, no_arguments)) = none
arc_argument (some (ident, angle_bracketed generics)) =
    if str_eq ident "Arc" then first_type generics else none
arc_argument (some (ident, parenthesized tokens)) = none

unfoldable pub extract_arc_inner : RustType → Option RustType
unfolding last_segment arc_argument
extract_arc_inner (path segments) = arc_argument (last_segment segments)
extract_arc_inner (trait_object bounds) = none
extract_arc_inner (other_type tokens) = none

unfoldable pub is_trait_object : RustType → Bool
is_trait_object (trait_object bounds) = true
is_trait_object _ = false

-- An element of `dependency_ids()`: `TraitObject::<T>::type_id()` or `TypeId::of::<T>()`.
pub data IdExpression : Type 0 where
  trait_id concrete_id : RustType → IdExpression

-- An argument of `Self::new(..)`: `container.get_trait::<T>()` or `container.get::<T>()`.
pub data GetCall : Type 0 where
  get_trait get_concrete : RustType → GetCall

-- The four vectors that the loop over the fields fills, an entry for each field.
pub record FieldCode : Type 0 where
  pub field_name : String
  pub field_type : RustType
  pub dependency_id : IdExpression
  pub get_call : GetCall

unfoldable pub field_code : Field → RustType → FieldCode
unfolding is_trait_object
field_code field inner =
    if is_trait_object inner
    then record {
      field_name = field.ident;
      field_type = field.ty;
      dependency_id = trait_id inner;
      get_call = get_trait inner;
    }
    else record {
      field_name = field.ident;
      field_type = field.ty;
      dependency_id = concrete_id inner;
      get_call = get_concrete inner;
    }

unfoldable pub fields_code : List Field → Result (List FieldCode) MacroError
unfolding extract_arc_inner field_code
fields_code [] = ok []
fields_code (field ∷ fields) =
    let rest = fields_code fields in
    elim (extract_arc_inner field.ty) [
      | none ↦ err (field_not_arc field.ty)
      | some inner ↦ elim rest [ err e ↦ err e | ok codes ↦ ok (field_code field inner ∷ codes) ]
    ]

-- The parts of the generated code of `#[service]`: the parameters of `new`, `dependency_ids`, the calls
-- in `build`, and the type that `register` registers (`none` for the struct itself).
pub record Service : Type 0 where
  pub struct_name : String
  pub codes : List FieldCode
  pub trait_type : Option RustType
  pub stano_di : CratePath

unfoldable pub struct_fields : Fields → Result (List FieldCode) MacroError
unfolding fields_code
struct_fields (named fields) = fields_code fields
struct_fields unit = ok []
struct_fields (unnamed types) = err unnamed_fields

unfoldable pub service_struct : CrateName → ItemStruct → Option RustType → Result Service MacroError
unfolding stano_di_path struct_fields
service_struct crate_name def trait_type = elim (stano_di_path crate_name) [
  | none ↦ err missing_dependency
  | some root ↦ elim (struct_fields def.fields) [
    | err e ↦ err e
    | ok codes ↦ ok (record {
      struct_name = def.ident;
      codes = codes;
      trait_type = trait_type;
      stano_di = root;
    })
  ]
]

module _ (parse_type : String → Result RustType String) where
  -- The attribute's type: none for an empty attribute.
  unfoldable pub attribute_type : String → Result (Option RustType) MacroError
  attribute_type attr =
      if str_eq attr ""
      then ok none
      else elim (parse_type attr) [ ok ty ↦ ok (some ty) | err e ↦ err (bad_trait_type e) ]

  unfoldable pub service_impl : CrateName → String → Item → Result Service MacroError
  unfolding service_struct attribute_type
  service_impl crate_name attr (struct_item def) = elim (attribute_type attr) [
    | err e ↦ err e
    | ok trait_type ↦ service_struct crate_name def trait_type
  ]
  service_impl crate_name attr (trait_item def) = err service_on_other
  service_impl crate_name attr (other_item tokens) = err service_on_other
