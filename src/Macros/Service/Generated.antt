-- ===== src/Macros/Service/Generated.antt =====
-- What the code that `#[service]` generates does: its registration keeps a container safe, since a
-- component declares what its factory looks up. The compiler is a parameter: the number of a type and
-- its `type_name`, and the instance that `Self::new` makes of the resolved fields.
use modular_rust_platform.Base.{
  ℕ, String, ◌≡◌, refl, ap, sym, ◌∙◌, subst, inl, inr, Option, none, some, List, [], ◌∷◌, ◌++◌, map,
  Result, ok, Result-cases, Option-cases, Bool-cases, ok_injective, err-ne-ok, All, In,
}
use modular_rust_platform.Di.Container.{
  Container, TypeId, type_id_of, trait_type_id, Build, instance_of, panic, ask, found, failed,
  Request, component, trait_object, register_with_deps, register_trait_with_deps,
}
use modular_rust_platform.Di.Container.Resolve.{key_of}
use modular_rust_platform.Di.Container.Resolve.Declared.{Declares}
use modular_rust_platform.Di.Container.Safety.{registrations-IsSafe}
use modular_rust_platform.Di.Context.{KeepsSafe}
use modular_rust_platform.Macros.Syntax.{RustType, CrateName}
use modular_rust_platform.Macros.Service.{
  IdExpression, trait_id, concrete_id, GetCall, get_trait, get_concrete, FieldCode, field_code,
  Service, fields_code, is_trait_object, Field, extract_arc_inner, Fields, named, unit, unnamed,
  struct_fields, service_struct, stano_di_path, ItemStruct, Item, struct_item, trait_item,
  other_item, attribute_type, service_impl,
}

pub record Compiler : Type 0 where
  pub type_number : RustType → ℕ
  pub type_name : RustType → String
  pub struct_number : String → ℕ
  pub construct : String → List ℕ → ℕ

module _ (compiler : Compiler) where
  open compiler use {type_number, type_name, struct_number, construct}

  unfoldable pub id_value : IdExpression → TypeId
  id_value (trait_id ty) = trait_type_id (type_number ty)
  id_value (concrete_id ty) = type_id_of (type_number ty)

  unfoldable pub request_of : GetCall → Request
  request_of (get_trait ty) = trait_object (type_number ty) (type_name ty)
  request_of (get_concrete ty) = component (type_number ty) (type_name ty)

  unfoldable pub dependency_ids : List FieldCode → List TypeId
  unfolding id_value
  dependency_ids = map (λ code. id_value code.dependency_id)

  -- `build`: each `get` panics if its lookup fails, and `new` is called with what they return.
  unfoldable pub build_from : String → List FieldCode → List ℕ → Build
  unfolding request_of
  build_from struct_name [] args = instance_of (construct struct_name args)
  build_from struct_name (code ∷ codes) args = ask (request_of code.get_call) (λ answer.
      elim answer [ found v ↦ build_from struct_name codes (args ++ v ∷ []) | failed e ↦ panic ])

  -- `<T as Component>::register`
  unfoldable pub register_service : Service → Container → Container
  unfolding build_from dependency_ids
  register_service s c = elim s.trait_type [
    | none ↦
        register_with_deps (struct_number s.struct_name) (build_from s.struct_name s.codes [])
          s.struct_name (dependency_ids s.codes) c
    | some ty ↦
        register_trait_with_deps (type_number ty) (build_from s.struct_name s.codes [])
          s.struct_name (dependency_ids s.codes) c
  ]

  -- The two vectors of a field name the same component.
  abbrev Agrees : FieldCode → Type 0
  Agrees code = key_of (request_of code.get_call) ≡ id_value code.dependency_id

  build_from-Declares :
      (struct_name : String) (codes : List FieldCode) (deps : List TypeId) (args : List ℕ)
      → All Agrees codes
      → All (λ code. In (id_value code.dependency_id) deps) codes
      → Declares deps (build_from struct_name codes args)
  unfolding build_from
  build_from-Declares struct_name [] deps args a l = tt
  build_from-Declares struct_name (code ∷ codes) deps args (agrees, rest) (listed, others) = (
    subst (λ k. In k deps) (sym agrees) listed,
    λ answer.
        elim answer
          as (λ x. Declares deps (elim x [
            | found v ↦ build_from struct_name codes (args ++ v ∷ [])
            | failed e ↦ panic
          ])) [
            | found v ↦ build_from-Declares struct_name codes deps (args ++ v ∷ []) rest others
            | failed e ↦ tt
          ],
  )

  All-dependency_ids :
      (codes : List FieldCode) (deps : List TypeId)
      → ((id : TypeId) → In id (dependency_ids codes) → In id deps)
      → All (λ code. In (id_value code.dependency_id) deps) codes
  unfolding dependency_ids
  All-dependency_ids [] deps sub = tt
  All-dependency_ids (code ∷ codes) deps sub = (
    sub (id_value code.dependency_id) (inl refl),
    All-dependency_ids codes deps (λ id h. sub id (inr h)),
  )

  field_code-Agrees : (field : Field) (inner : RustType) → Agrees (field_code field inner)
  unfolding field_code request_of id_value
  field_code-Agrees field inner = elim (Bool-cases (is_trait_object inner)) [
    | inl dynamic ↦ rw (dynamic, field_code) refl
    | inr concrete ↦ rw (concrete, field_code) refl
  ]

  fields_code-Agrees :
      (fields : List Field) (codes : List FieldCode)
      → fields_code fields ≡ ok codes
      → All Agrees codes
  unfolding fields_code
  fields_code-Agrees [] codes e = subst (All Agrees) (ok_injective e) tt
  fields_code-Agrees (field ∷ fields) codes e = elim (Option-cases (extract_arc_inner field.ty)) [
    | inl plain ↦ absurd (err-ne-ok (rw (plain, fields_code) at e))
    | inr (inner, arc) ↦ elim (Result-cases (fields_code fields)) [
      | inr (failure, r) ↦ absurd (err-ne-ok (rw (r, fields_code) at (rw (arc, fields_code) at e)))
      | inl (rest, r) ↦
          subst (All Agrees) (ok_injective (rw (r, fields_code) at (rw (arc, fields_code) at e)))
            (field_code-Agrees field inner, fields_code-Agrees fields rest r)
    ]
  ]

  struct_fields-Agrees :
      (fields : Fields) (codes : List FieldCode)
      → struct_fields fields ≡ ok codes
      → All Agrees codes
  unfolding struct_fields
  struct_fields-Agrees (named fields) codes e = fields_code-Agrees fields codes e
  struct_fields-Agrees unit codes e = subst (All Agrees) (ok_injective e) tt
  struct_fields-Agrees (unnamed types) codes e = absurd (err-ne-ok e)

  register_service-KeepsSafe : (s : Service) → All Agrees s.codes → KeepsSafe (register_service s)
  unfolding register_service
  register_service-KeepsSafe s agrees c safe =
      let declared =
        build_from-Declares s.struct_name s.codes (dependency_ids s.codes) [] agrees
          (All-dependency_ids s.codes (dependency_ids s.codes) (λ id h. h)) in
      let kept = λ (t : ℕ).
        registrations-IsSafe c safe t (build_from s.struct_name s.codes []) panic 0 s.struct_name
          (dependency_ids s.codes) declared tt in
      elim (Option-cases s.trait_type) [
        | inl own ↦ rw (own, register_service) (kept (struct_number s.struct_name)).0
        | inr (ty, dynamic) ↦ rw (dynamic, register_service) (kept (type_number ty)).1
      ]

  service_struct-codes :
      (crate_name : CrateName) (def : ItemStruct) (trait_type : Option RustType) (s : Service)
      → service_struct crate_name def trait_type ≡ ok s
      → struct_fields def.fields ≡ ok s.codes
  unfolding service_struct
  service_struct-codes crate_name def trait_type s e =
      elim (Option-cases (stano_di_path crate_name)) [
        | inl missing ↦ absurd (err-ne-ok (rw (missing, service_struct) at e))
        | inr (root, located) ↦ elim (Result-cases (struct_fields def.fields)) [
          | inr (failure, f) ↦
              absurd (err-ne-ok (rw (f, service_struct) at (rw (located, service_struct) at e)))
          | inl (codes, f) ↦
              f
              ∙ ap (λ (x : Service). ok x.codes)
                  (ok_injective (rw (f, service_struct) at (rw (located, service_struct) at e)))
        ]
      ]

  module _ (parse_type : String → Result RustType String) where
    -- Whatever `#[service]` expands to, its registration keeps containers safe: the component declares
    -- each type that its factory looks up, so what the container promises of safe containers holds for
    -- every application that registers its components with the macro.
    pub service_impl-KeepsSafe :
        (crate_name : CrateName) (attr : String) (item : Item) (s : Service)
        → service_impl parse_type crate_name attr item ≡ ok s
        → KeepsSafe (register_service s)
    unfolding service_impl
    service_impl-KeepsSafe crate_name attr (struct_item def) s e =
        elim (Result-cases (attribute_type parse_type attr)) [
          | inr (failure, a) ↦ absurd (err-ne-ok (rw (a, service_impl) at e))
          | inl (trait_type, a) ↦ register_service-KeepsSafe s (
              struct_fields-Agrees def.fields s.codes
                (service_struct-codes crate_name def trait_type s (rw (a, service_impl) at e)))
        ]
    service_impl-KeepsSafe crate_name attr (trait_item def) s e = absurd (err-ne-ok e)
    service_impl-KeepsSafe crate_name attr (other_item tokens) s e = absurd (err-ne-ok e)
