-- ===== src/Macros/Service/Accepted.antt =====
-- Which items the macros accept.
use modular_rust_platform.Base.{
  String, ◌≡◌, refl, sym, ◌∙◌, ◌⊎◌, ◌↔◌, inl, inr, Option, none, some, List, [], ◌∷◌, Result, ok,
  Result-cases, Option-cases, Bool-cases, err-ne-ok, none-ne-some, false-ne-true, All, arith,
  str_eq, eq_iff,
}
use modular_rust_platform.Macros.Syntax.{
  RustType, path, trait_object, other_type, Segments, Arguments, no_arguments, angle_bracketed,
  parenthesized, GenericArguments, no_generics, type_argument, other_argument, last_segment,
  CrateName, CratePath,
}
use modular_rust_platform.Macros.Service.{
  Field, FieldCode, Fields, named, unit, unnamed, ItemStruct, Item, struct_item, trait_item,
  other_item, Service, arc_argument, extract_arc_inner, field_code, fields_code, struct_fields,
  service_struct, stano_di_path, attribute_type, service_impl,
}

-- `Arc<T, ..>`, under any path.
abbrev pub IsArc : RustType → Type 0
IsArc ty =
    (segments : Segments) × (inner : RustType) × (rest : GenericArguments) × (ty ≡ path segments)
    × (last_segment segments ≡ some ("Arc", angle_bracketed (type_argument inner rest)))

arc_argument_lem :
    (last : Option (String × Arguments)) (inner : RustType)
    → arc_argument last ≡ some inner
    → (rest : GenericArguments) × (last ≡ some ("Arc", angle_bracketed (type_argument inner rest)))
unfolding arc_argument
arc_argument_lem none inner e = cc
arc_argument_lem (some (ident, no_arguments)) inner e = cc
arc_argument_lem (some (ident, parenthesized tokens)) inner e = cc
arc_argument_lem (some (ident, angle_bracketed no_generics)) inner e =
    ground (arith, eq_iff ident "Arc")
arc_argument_lem (some (ident, angle_bracketed (other_argument tokens rest))) inner e =
    ground (arith, eq_iff ident "Arc")
arc_argument_lem (some (ident, angle_bracketed (type_argument ty rest))) inner e =
    (rest, ground (arith, eq_iff ident "Arc"))

extract_arc_inner-IsArc : (ty inner : RustType) → extract_arc_inner ty ≡ some inner → IsArc ty
unfolding extract_arc_inner
extract_arc_inner-IsArc (path segments) inner e =
    let (rest, last) = arc_argument_lem (last_segment segments) inner e in
    (segments, inner, rest, refl, last)
extract_arc_inner-IsArc (trait_object bounds) inner e = cc
extract_arc_inner-IsArc (other_type tokens) inner e = cc

extract-of_IsArc :
    (ty : RustType) → IsArc ty → (inner : RustType) × (extract_arc_inner ty ≡ some inner)
unfolding extract_arc_inner arc_argument
extract-of_IsArc ty (segs, inner, rest, e, last) = (inner, rw e (rw (last, arc_argument) refl))

fields_code-All :
    (fields : List Field) (codes : List FieldCode)
    → fields_code fields ≡ ok codes
    → All (λ field. IsArc field.ty) fields
unfolding fields_code
fields_code-All [] codes e = tt
fields_code-All (field ∷ fields) codes e = elim (Option-cases (extract_arc_inner field.ty)) [
  | inl plain ↦ absurd (err-ne-ok (rw (plain, fields_code) at e))
  | inr (inner, arc) ↦ elim (Result-cases (fields_code fields)) [
    | inr (failure, r) ↦ absurd (err-ne-ok (rw (r, fields_code) at (rw (arc, fields_code) at e)))
    | inl (rest, r) ↦ (extract_arc_inner-IsArc field.ty inner arc, fields_code-All fields rest r)
  ]
]

fields_code-ok :
    (fields : List Field)
    → All (λ field. IsArc field.ty) fields
    → (codes : List FieldCode) × (fields_code fields ≡ ok codes)
unfolding fields_code
fields_code-ok [] h = ([], refl)
fields_code-ok (field ∷ fields) (arc, arcs) =
    let (inner, e) = extract-of_IsArc field.ty arc in
    let (codes, r) = fields_code-ok fields arcs in
    (field_code field inner ∷ codes, rw (e, fields_code) (rw (r, fields_code) refl))

-- The fields that a service may have: none at all, or named ones that are each an `Arc`.
abbrev pub Injectable : Fields → Type 0
Injectable (named fields) = All (λ field. IsArc field.ty) fields
Injectable unit = Unit
Injectable (unnamed types) = ⊥

struct_fields_iff :
    (fields : Fields)
    → ((codes : List FieldCode) × (struct_fields fields ≡ ok codes)) ↔ Injectable fields
unfolding struct_fields
struct_fields_iff (named fields) =
    ((λ (codes, e). fields_code-All fields codes e), fields_code-ok fields)
struct_fields_iff unit = ((λ h. tt), λ h. ([], refl))
struct_fields_iff (unnamed types) = ((λ (codes, e). err-ne-ok e), λ h. absurd h)

service_struct_iff :
    (crate_name : CrateName) (def : ItemStruct) (trait_type : Option RustType)
    → ((s : Service) × (service_struct crate_name def trait_type ≡ ok s))
      ↔ (((root : CratePath) × (stano_di_path crate_name ≡ some root)) × Injectable def.fields)
unfolding service_struct
service_struct_iff crate_name def trait_type = elim (Option-cases (stano_di_path crate_name)) [
  | inl missing ↦
      rw (missing, service_struct)
        ((λ (s, e). absurd (err-ne-ok e)), λ ((root, e), h). absurd (none-ne-some e))
  | inr (root, located) ↦ elim (Result-cases (struct_fields def.fields)) [
    | inr (failure, f) ↦
        rw (located, service_struct)
          (rw (f, service_struct)
            (
              (λ (s, e). absurd (err-ne-ok e)),
              λ ((_, _), h).
                  let (codes, e) = (struct_fields_iff def.fields).1 h in
                  absurd (err-ne-ok (sym f ∙ e)),
            ))
    | inl (codes, f) ↦
        rw (located, service_struct)
          (rw (f, service_struct)
            (
              (λ (s, e). ((root, refl), (struct_fields_iff def.fields).0 (codes, f))),
              λ h. (_, refl),
            ))
  ]
]

module _ (parse_type : String → Result RustType String) where
  -- What `#[service(attr)]` wants of an item: a struct with injectable fields, an attribute that is
  -- empty or a type, and a dependency on one of the crates that have the container.
  abbrev pub AcceptsService : CrateName → String → Item → Type 0
  AcceptsService crate_name attr (struct_item def) =
      ((attr ≡ "") ⊎ ((ty : RustType) × (parse_type attr ≡ ok ty)))
      × ((root : CratePath) × (stano_di_path crate_name ≡ some root))
      × Injectable def.fields
  AcceptsService crate_name attr (trait_item def) = ⊥
  AcceptsService crate_name attr (other_item tokens) = ⊥

  attribute_type_iff :
      (attr : String)
      → ((ty : Option RustType) × (attribute_type parse_type attr ≡ ok ty))
        ↔ ((attr ≡ "") ⊎ ((ty : RustType) × (parse_type attr ≡ ok ty)))
  unfolding attribute_type
  attribute_type_iff attr = elim (Bool-cases (str_eq attr "")) [
    | inl empty ↦
        rw (empty, attribute_type) ((λ h. inl ((eq_iff attr "").0 empty)), λ h. (none, refl))
    | inr full ↦ elim (Result-cases (parse_type attr)) [
      | inl (ty, p) ↦
          rw (full, attribute_type)
            (rw (p, attribute_type) ((λ h. inr (ty, refl)), λ h. (some ty, refl)))
      | inr (failure, p) ↦
          rw (full, attribute_type)
            (rw (p, attribute_type)
              (
                (λ (ty, e). absurd (err-ne-ok e)),
                λ h. elim h [
                  | inl e ↦ absurd (false-ne-true (sym full ∙ (eq_iff attr "").1 e))
                  | inr (ty, e) ↦ absurd (err-ne-ok e)
                ],
              ))
    ]
  ]

  -- `#[service]` expands exactly if its attribute is empty or a type, its item is a struct without
  -- fields or with named fields that are all `Arc<..>`, and the crate depends on the container.
  pub service_impl_iff :
      (crate_name : CrateName) (attr : String) (item : Item)
      → ((s : Service) × (service_impl parse_type crate_name attr item ≡ ok s))
        ↔ AcceptsService crate_name attr item
  unfolding service_impl
  service_impl_iff crate_name attr (struct_item def) =
      elim (Result-cases (attribute_type parse_type attr)) [
        | inr (failure, a) ↦
            rw (a, service_impl)
              (
                (λ (s, e). absurd (err-ne-ok e)),
                λ (good, root, h).
                    let (ty, e) = (attribute_type_iff attr).1 good in
                    absurd (err-ne-ok (sym a ∙ e)),
              )
        | inl (ty, a) ↦
            rw (a, service_impl)
              (
                (λ built.
                    let (root, h) = (service_struct_iff crate_name def ty).0 built in
                    ((attribute_type_iff attr).0 (ty, a), root, h)),
                λ (good, root, h). (service_struct_iff crate_name def ty).1 (root, h),
              )
      ]
  service_impl_iff crate_name attr (trait_item def) = ((λ (s, e). err-ne-ok e), λ h. absurd h)
  service_impl_iff crate_name attr (other_item tokens) = ((λ (s, e). err-ne-ok e), λ h. absurd h)
