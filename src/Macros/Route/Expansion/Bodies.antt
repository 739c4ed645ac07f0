-- ===== src/Macros/Route/Expansion/Bodies.antt =====
-- The bodies that the arguments of a generated `#[utoipa::path(..)]` name.
use modular_rust_platform.Base.{
  ◌≡◌, refl, sym, ap, inl, inr, Option, none, some, List, [], ◌∷◌, ◌++◌, ok, Bool-cases, err-ne-ok,
  ok_injective,
}
use modular_rust_platform.Macros.Syntax.{RustType}
use modular_rust_platform.Macros.Keys.{Tokens, AttrKey}
use modular_rust_platform.Macros.Route.{
  Param, Argument, method_key, operation_id, pass_through, explicit_request_body,
  inferred_request_body, responses, params,
}
use modular_rust_platform.Macros.Route.Signature.{with_type}
use modular_rust_platform.Macros.Route.Expansion.{
  lists_200, responses_argument, is_inferred_key, pass_through_keys, params_argument, as_list,
}

-- The types that the arguments name as the request body and as the body of the 200 response.
abbrev pub json_bodies : List Argument → List RustType
json_bodies [] = []
json_bodies (inferred_request_body ty ∷ arguments) = ty ∷ json_bodies arguments
json_bodies (_ ∷ arguments) = json_bodies arguments

abbrev pub ok_bodies : List Argument → List RustType
ok_bodies [] = []
ok_bodies (responses (some ty) inner ∷ arguments) = ty ∷ ok_bodies arguments
ok_bodies (_ ∷ arguments) = ok_bodies arguments

pub json_bodies-append :
    (xs ys : List Argument) → json_bodies (xs ++ ys) ≡ json_bodies xs ++ json_bodies ys
json_bodies-append [] ys = refl
json_bodies-append (inferred_request_body ty ∷ xs) ys = ap (ty ∷◌) (json_bodies-append xs ys)
json_bodies-append (method_key _ ∷ xs) ys = json_bodies-append xs ys
json_bodies-append (operation_id _ ∷ xs) ys = json_bodies-append xs ys
json_bodies-append (pass_through _ ∷ xs) ys = json_bodies-append xs ys
json_bodies-append (explicit_request_body _ ∷ xs) ys = json_bodies-append xs ys
json_bodies-append (responses _ _ ∷ xs) ys = json_bodies-append xs ys
json_bodies-append (params _ _ ∷ xs) ys = json_bodies-append xs ys

pub ok_bodies-append : (xs ys : List Argument) → ok_bodies (xs ++ ys) ≡ ok_bodies xs ++ ok_bodies ys
ok_bodies-append [] ys = refl
ok_bodies-append (responses (some ty) _ ∷ xs) ys = ap (ty ∷◌) (ok_bodies-append xs ys)
ok_bodies-append (responses none _ ∷ xs) ys = ok_bodies-append xs ys
ok_bodies-append (method_key _ ∷ xs) ys = ok_bodies-append xs ys
ok_bodies-append (operation_id _ ∷ xs) ys = ok_bodies-append xs ys
ok_bodies-append (pass_through _ ∷ xs) ys = ok_bodies-append xs ys
ok_bodies-append (explicit_request_body _ ∷ xs) ys = ok_bodies-append xs ys
ok_bodies-append (inferred_request_body _ ∷ xs) ys = ok_bodies-append xs ys
ok_bodies-append (params _ _ ∷ xs) ys = ok_bodies-append xs ys

-- The attribute's own keys and the parameters name neither.
pub pass_through_keys-bodies :
    (keys : List AttrKey)
    → (json_bodies (pass_through_keys keys) ≡ []) × (ok_bodies (pass_through_keys keys) ≡ [])
unfolding pass_through_keys
pass_through_keys-bodies [] = (refl, refl)
pass_through_keys-bodies (k ∷ keys) = elim (Bool-cases (is_inferred_key k.name)) [
  | inl e ↦ rw (e, pass_through_keys) (pass_through_keys-bodies keys)
  | inr e ↦ rw (e, pass_through_keys) (pass_through_keys-bodies keys)
]

pub params_argument-bodies :
    (ps : List Param) (inner : Option Tokens)
    → (json_bodies (as_list (params_argument ps inner)) ≡ [])
      × (ok_bodies (as_list (params_argument ps inner)) ≡ [])
unfolding params_argument
params_argument-bodies [] none = (refl, refl)
params_argument-bodies [] (some inner) = (refl, refl)
params_argument-bodies (p ∷ ps) inner = (refl, refl)

pub responses_argument-bodies :
    (body : Option RustType) (inner : Option Tokens) (response : Argument) (rest : List Argument)
    → responses_argument body inner ≡ ok response
    → (json_bodies (response ∷ rest) ≡ json_bodies rest)
      × (ok_bodies (response ∷ rest) ≡ with_type body (ok_bodies rest))
unfolding responses_argument
responses_argument-bodies none none response rest e = absurd (err-ne-ok e)
responses_argument-bodies none (some inner) response rest e = rw (sym (ok_injective e)) (refl, refl)
responses_argument-bodies (some body) none response rest e = rw (sym (ok_injective e)) (refl, refl)
responses_argument-bodies (some body) (some inner) response rest e =
    elim (Bool-cases (lists_200 inner)) [
      | inl twice ↦ absurd (err-ne-ok (rw (twice, responses_argument) at e))
      | inr once ↦ rw (sym (ok_injective (rw (once, responses_argument) at e))) (refl, refl)
    ]
