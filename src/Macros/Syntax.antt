-- ===== src/Macros/Syntax.antt =====
-- What the macros look into of a Rust item: types as `syn` parses them, and where a crate is found. A
-- leading `::` of a path is not modelled.
-- Parts that the macros only pass on are their text.
use modular_rust_platform.Base.{String, Bool, false, Option, none, some, List, str_eq}

mutual
  -- `syn::Type`: a path, a trait object with its bounds, or any other type.
  pub data RustType : Type 0 where
    path : Segments → RustType
    trait_object : String → RustType
    other_type : String → RustType

  pub data Segments : Type 0 where
    no_segments : Segments
    segment : String → Arguments → Segments → Segments

  pub data Arguments : Type 0 where
    no_arguments : Arguments
    angle_bracketed : GenericArguments → Arguments
    parenthesized : String → Arguments

  -- `type_argument` is `GenericArgument::Type`, `other_argument` a lifetime, a constant or a binding.
  pub data GenericArguments : Type 0 where
    no_generics : GenericArguments
    type_argument : RustType → GenericArguments → GenericArguments
    other_argument : String → GenericArguments → GenericArguments

-- `path.segments.last()`
unfoldable pub last_segment : Segments → Option (String × Arguments)
last_segment no_segments = none
last_segment (segment ident args no_segments) = some (ident, args)
last_segment (segment ident args (segment next more rest)) = last_segment (segment next more rest)

-- `args.args.first()`, where it is a type.
abbrev pub first_type : GenericArguments → Option RustType
first_type no_generics = none
first_type (type_argument ty rest) = some ty
first_type (other_argument tokens rest) = none

-- `path.is_ident(name)`
abbrev pub is_ident : Segments → String → Bool
is_ident (segment ident no_arguments no_segments) name = str_eq ident name
is_ident _ name = false

-- `proc_macro_crate::FoundCrate`
pub data FoundCrate : Type 0 where
  itself : FoundCrate
  named_crate : String → FoundCrate

-- `crate_name`: where the crate that uses the macro depends on a package, and under which name.
abbrev pub CrateName : Type 0
CrateName = String → Option FoundCrate

-- A path in the generated code: `crate` or `::name`, and what follows.
pub record CratePath : Type 0 where
  pub root : FoundCrate
  pub rest : List String
