-- ===== src/Macros/Route/ReturnBody.antt =====
-- The return types whose response body the route macros of crates/stano-route-macros/src/lib.rs infer.
use modular_rust_platform.Base.{
  String, ◌≡◌, refl, ap, ◌∙◌, ◌⊎◌, ◌↔◌, inl, inr, Option, none, some, Option-cases, none-ne-some,
  some_injective, arith, eq_iff,
}
use modular_rust_platform.Macros.Syntax.{
  RustType, path, trait_object, other_type, Segments, Arguments, no_arguments, angle_bracketed,
  parenthesized, GenericArguments, no_generics, type_argument, other_argument, last_segment,
}
use modular_rust_platform.Macros.Route.{
  wrapped, extract_type_arg, result_ok, extract_result_ok_arg, ReturnType, default, returns,
  response_body, inferred_response_body,
}

-- The type is `AppJson<T>`, under any path.
abbrev pub IsAppJson : RustType → RustType → Type 0
IsAppJson ty inner =
    (segments : Segments) × (ty ≡ path segments)
    × (last_segment segments ≡ some ("AppJson", angle_bracketed (type_argument inner no_generics)))

-- The type is `Result<T, ..>`, under any path.
abbrev pub IsResult : RustType → RustType → Type 0
IsResult ty inner =
    (segments : Segments) × (rest : GenericArguments) × (ty ≡ path segments)
    × (last_segment segments ≡ some ("Result", angle_bracketed (type_argument inner rest)))

-- The handler returns `AppJson<T>` or `Result<AppJson<T>, ..>`.
abbrev pub ReturnsJson : ReturnType → RustType → Type 0
ReturnsJson output body =
    (ty : RustType) × (output ≡ returns ty)
    × (IsAppJson ty body ⊎ ((inner : RustType) × IsResult ty inner × IsAppJson inner body))

wrapped_lem :
    (last : Option (String × Arguments)) (inner : RustType)
    → wrapped "AppJson" last ≡ some inner
    → last ≡ some ("AppJson", angle_bracketed (type_argument inner no_generics))
unfolding wrapped
wrapped_lem none inner e = cc
wrapped_lem (some (ident, no_arguments)) inner e = cc
wrapped_lem (some (ident, parenthesized tokens)) inner e = cc
wrapped_lem (some (ident, angle_bracketed no_generics)) inner e =
    ground (arith, eq_iff ident "AppJson")
wrapped_lem (some (ident, angle_bracketed (other_argument tokens rest))) inner e =
    ground (arith, eq_iff ident "AppJson")
wrapped_lem (some (ident, angle_bracketed (type_argument ty no_generics))) inner e =
    ground (arith, eq_iff ident "AppJson")
wrapped_lem (some (ident, angle_bracketed (type_argument ty (type_argument next rest)))) inner e =
    ground (arith, eq_iff ident "AppJson")
wrapped_lem (some (ident, angle_bracketed (type_argument ty (other_argument tokens rest)))) inner
      e =
    ground (arith, eq_iff ident "AppJson")

result_ok_lem :
    (last : Option (String × Arguments)) (inner : RustType)
    → result_ok last ≡ some inner
    → (rest : GenericArguments) × (last
        ≡ some ("Result", angle_bracketed (type_argument inner rest)))
unfolding result_ok
result_ok_lem none inner e = cc
result_ok_lem (some (ident, no_arguments)) inner e = cc
result_ok_lem (some (ident, parenthesized tokens)) inner e = cc
result_ok_lem (some (ident, angle_bracketed no_generics)) inner e =
    ground (arith, eq_iff ident "Result")
result_ok_lem (some (ident, angle_bracketed (other_argument tokens rest))) inner e =
    ground (arith, eq_iff ident "Result")
result_ok_lem (some (ident, angle_bracketed (type_argument ty rest))) inner e =
    (rest, ground (arith, eq_iff ident "Result"))

extract_type_arg_iff :
    (ty inner : RustType) → (extract_type_arg ty "AppJson" ≡ some inner) ↔ IsAppJson ty inner
unfolding extract_type_arg wrapped
extract_type_arg_iff ty inner = (forth ty, λ (segs, e, last). rw e (rw (last, wrapped) refl))
  where
    forth : (t : RustType) → extract_type_arg t "AppJson" ≡ some inner → IsAppJson t inner
    forth (path segs) e = (segs, refl, wrapped_lem (last_segment segs) inner e)
    forth (trait_object bounds) e = cc
    forth (other_type tokens) e = cc

extract_result_ok_arg_iff :
    (ty inner : RustType) → (extract_result_ok_arg ty ≡ some inner) ↔ IsResult ty inner
unfolding extract_result_ok_arg result_ok
extract_result_ok_arg_iff ty inner =
    (forth ty, λ (segs, rest, e, last). rw e (rw (last, result_ok) refl))
  where
    forth : (t : RustType) → extract_result_ok_arg t ≡ some inner → IsResult t inner
    forth (path segs) e =
        let (rest, last) = result_ok_lem (last_segment segs) inner e in (segs, rest, refl, last)
    forth (trait_object bounds) e = cc
    forth (other_type tokens) e = cc

-- A `Result` is no `AppJson`.
IsResult-extract_type_arg :
    (ty inner : RustType) → IsResult ty inner → extract_type_arg ty "AppJson" ≡ none
unfolding extract_type_arg wrapped
IsResult-extract_type_arg ty inner (segs, rest, e, last) = rw e (rw (last, wrapped) refl)

response_body-ReturnsJson :
    (ty body : RustType)
    → response_body ty ≡ some body
    → IsAppJson ty body ⊎ ((inner : RustType) × IsResult ty inner × IsAppJson inner body)
unfolding response_body
response_body-ReturnsJson ty body e = elim (Option-cases (extract_type_arg ty "AppJson")) [
  | inr (inner, json) ↦
      let same = some_injective (rw (json, response_body) at e) in
      inl ((extract_type_arg_iff ty body).0 (json ∙ ap some same))
  | inl other ↦ elim (Option-cases (extract_result_ok_arg ty)) [
    | inl no_result ↦
        absurd (none-ne-some (rw (no_result, response_body) at (rw (other, response_body) at e)))
    | inr (inner, result) ↦ inr (
      inner,
      (extract_result_ok_arg_iff ty inner).0 result,
      (extract_type_arg_iff inner body).0
          (rw (result, response_body) at (rw (other, response_body) at e)),
    )
  ]
]

-- The inferred body is the `T` of a handler that returns `AppJson<T>` or `Result<AppJson<T>, ..>`.
pub inferred_response_body_iff :
    (output : ReturnType) (body : RustType)
    → (inferred_response_body output ≡ some body) ↔ ReturnsJson output body
unfolding inferred_response_body response_body
inferred_response_body_iff output body = (forth output, back output)
  where
    forth : (o : ReturnType) → inferred_response_body o ≡ some body → ReturnsJson o body
    forth default e = absurd (none-ne-some e)
    forth (returns ty) e = (ty, refl, response_body-ReturnsJson ty body e)

    back : (o : ReturnType) → ReturnsJson o body → inferred_response_body o ≡ some body
    back o (ty, e, inl json) = rw e (rw ((extract_type_arg_iff ty body).1 json, response_body) refl)
    back o (ty, e, inr (inner, result, json)) = rw e (
        rw (IsResult-extract_type_arg ty inner result, response_body)
          (rw ((extract_result_ok_arg_iff ty inner).1 result, response_body)
            ((extract_type_arg_iff inner body).1 json)))
