-- ===== src/Macros/Route/Expansion/Documented.antt =====
-- What the generated documentation says of the handler.
use modular_rust_platform.Base.{
  ◌≤◌, String, ◌≡◌, refl, sym, ap, ◌∙◌, ◌↔◌, In, none-ne-some, some_injective, inl, inr, Option,
  none, some, List, [], ◌∷◌, ◌++◌, ok, length, drop, and_then_ok, Bool-cases, Option-cases,
  err-ne-ok, ok_injective, arith, append-nil,
}
use modular_rust_platform.Base.Text.{text_eq}
use modular_rust_platform.Macros.Syntax.{RustType, CrateName}
use modular_rust_platform.Macros.Keys.{Tokens, AttrKey, split_top_level_keys}
use modular_rust_platform.Macros.Route.{
  TokenLibrary, stano_routes_path, ItemFn, SignatureInference, inferred_response_body, Argument,
  find_key, normalize, find_path_literal,
}
use modular_rust_platform.Macros.Route.Signature.{
  wrapped_types, with_type, signature_of, inspect_signature_lem,
}
use modular_rust_platform.Macros.Route.ReturnBody.{ReturnsJson, inferred_response_body_iff}
use modular_rust_platform.Macros.Route.Expansion.Passed.{passed, IsHandedOn, path_args-passed}
use modular_rust_platform.Macros.Route.Expansion.Accepted.{check_counts_iff}
use modular_rust_platform.Macros.Route.Expansion.{
  check_counts, first, key_inner, inferred_params, responses_argument, agreed_body,
  request_body_argument, pass_through_keys, params_argument, as_list, path_args, finish, expand,
  Route, route_method_fn,
}
use modular_rust_platform.Macros.Route.Expansion.Bodies.{
  json_bodies, ok_bodies, json_bodies-append, ok_bodies-append, pass_through_keys-bodies,
  params_argument-bodies, responses_argument-bodies,
}

with_type-In :
    (found : Option RustType) (ty : RustType) → In ty (with_type found []) ↔ (found ≡ some ty)
with_type-In none ty = ((λ h. absurd h), λ e. absurd (none-ne-some e))
with_type-In (some inner) ty = (
  (λ h. elim h [ inl e ↦ ap some (sym e) | inr n ↦ absurd n ]),
  λ e. inl (sym (some_injective e)),
)

with_type-short : (found : Option RustType) → length (with_type found []) ≤ 1
with_type-short none = omega arith
with_type-short (some inner) = omega arith

module _ (lib : TokenLibrary) where
  request_body-bodies :
      (key : Option AttrKey) (types : List RustType) (body : Option Argument)
      → length types ≤ 1
      → request_body_argument lib key (first types) ≡ ok body
      → (json_bodies (as_list body) ≡ types) × (ok_bodies (as_list body) ≡ [])
  unfolding request_body_argument agreed_body
  request_body-bodies none [] body h e = rw (sym (ok_injective e)) (refl, refl)
  request_body-bodies none (ty ∷ []) body h e = rw (sym (ok_injective e)) (refl, refl)
  request_body-bodies (some key) [] body h e = rw (sym (ok_injective e)) (refl, refl)
  request_body-bodies (some key) (ty ∷ []) body h e =
      elim (Bool-cases
        (text_eq (normalize lib (drop 2 key.tokens)) (normalize lib (lib.type_tokens ty)))) [
          | inl same ↦ rw (sym (ok_injective (rw (same, agreed_body) at e))) (refl, refl)
          | inr other ↦ absurd (err-ne-ok (rw (other, agreed_body) at e))
        ]
  request_body-bodies key (ty ∷ next ∷ types) body h e = absurd (omega arith)

  path_args-bodies :
      (method : String) (func : ItemFn) (keys : List AttrKey) (sig : SignatureInference)
      (body : Option Argument) (response : Argument)
      → length sig.app_json_types ≤ 1
      → request_body_argument lib (find_key "request_body" keys) (first sig.app_json_types)
        ≡ ok body
      → responses_argument (inferred_response_body func.output) (key_inner "responses" keys)
        ≡ ok response
      → (json_bodies (path_args lib method func keys sig body response) ≡ sig.app_json_types)
        × (ok_bodies (path_args lib method func keys sig body response)
            ≡ with_type (inferred_response_body func.output) [])
  unfolding path_args
  path_args-bodies method func keys sig body response h b r =
      let parameters =
        params_argument (inferred_params (find_path_literal lib keys) sig)
          (key_inner "params" keys) in
      let rest = response ∷ as_list parameters in
      let (pass_json, pass_ok) = pass_through_keys-bodies keys in
      let (body_json, body_ok) = request_body-bodies _ sig.app_json_types body h b in
      let (response_json, response_ok) =
        responses_argument-bodies _ _ response (as_list parameters) r in
      let (params_json, params_ok) =
        params_argument-bodies (inferred_params (find_path_literal lib keys) sig)
          (key_inner "params" keys) in
      (
        rw
            (
              json_bodies-append (pass_through_keys keys ++ as_list body) rest,
              json_bodies-append (pass_through_keys keys) (as_list body),
              pass_json,
              body_json,
              response_json,
              params_json,
            )
            (append-nil sig.app_json_types),
        rw
            (
              ok_bodies-append (pass_through_keys keys ++ as_list body) rest,
              ok_bodies-append (pass_through_keys keys) (as_list body),
              pass_ok,
              body_ok,
              response_ok,
              params_ok,
            )
            refl,
      )

  finish_ok :
      (crate_name : CrateName) (func : ItemFn) (arguments : List Argument) (r : Route)
      → finish lib crate_name func arguments ≡ ok r
      → (r.arguments ≡ arguments) × (r.handler ≡ func)
  unfolding finish
  finish_ok crate_name func arguments r e = elim (Option-cases (stano_routes_path crate_name)) [
    | inl missing ↦ absurd (err-ne-ok (rw (missing, finish) at e))
    | inr (root, located) ↦ rw (sym (ok_injective (rw (located, finish) at e))) (refl, refl)
  ]

  expand-documents :
      (crate_name : CrateName) (method : String) (func : ItemFn) (keys : List AttrKey)
      (sig : SignatureInference) (r : Route)
      → expand lib crate_name method func keys sig ≡ ok r
      → (json_bodies r.arguments ≡ sig.app_json_types)
        × (ok_bodies r.arguments ≡ with_type (inferred_response_body func.output) [])
        × ((tokens : Tokens) → In tokens (passed r.arguments) ↔ IsHandedOn keys tokens)
        × (r.handler ≡ func)
  unfolding expand
  expand-documents crate_name method func keys sig r e =
      let (u, counted, h1) = and_then_ok (check_counts sig) _ r e in
      let (body, b, h2) =
        and_then_ok
          (request_body_argument lib (find_key "request_body" keys) (first sig.app_json_types)) _ r
          h1 in
      let (response, a, h3) =
        and_then_ok
          (responses_argument (inferred_response_body func.output) (key_inner "responses" keys)) _ r
          h2 in
      let bodies =
        path_args-bodies method func keys sig body response
          ((check_counts_iff sig).0 (u, counted)).0 b a in
      let (arguments, handler) =
        finish_ok crate_name func (path_args lib method func keys sig body response) r h3 in
      (
        ap json_bodies arguments ∙ bodies.0,
        ap ok_bodies arguments ∙ bodies.1,
        λ tokens. rw arguments (
            path_args-passed lib method func keys sig _ _ (inferred_response_body func.output)
              (key_inner "responses" keys) body response tokens b a),
        handler,
      )

  -- An expanded route hands on its handler, and documents it: the request bodies that it infers are the
  -- types of the `AppJson` parameters; it infers at most one 200 response, and that is the `T` of a return
  -- type `AppJson<T>` or `Result<AppJson<T>, ..>`; and of the attribute's keys it hands on all but
  -- `request_body`, `responses` and `params`.
  pub route_method_fn-documents :
      (crate_name : CrateName) (method : String) (attr : Tokens) (func : ItemFn) (r : Route)
      → route_method_fn lib crate_name method attr func ≡ ok r
      → (json_bodies r.arguments ≡ wrapped_types "AppJson" func.inputs)
        × (length (ok_bodies r.arguments) ≤ 1)
        × ((body : RustType) → In body (ok_bodies r.arguments) ↔ ReturnsJson func.output body)
        × ((tokens : Tokens)
            → In tokens (passed r.arguments) ↔ IsHandedOn (split_top_level_keys attr) tokens)
        × (r.handler ≡ func)
  unfolding route_method_fn
  route_method_fn-documents crate_name method attr func r e =
      let (json, oks, handed, handler) =
        expand-documents crate_name method func (split_top_level_keys attr)
          (signature_of func.inputs) r (rw (inspect_signature_lem func) at e) in
      (
        json,
        rw oks (with_type-short (inferred_response_body func.output)),
        (λ body.
            let found = with_type-In (inferred_response_body func.output) body in
            let shape = inferred_response_body_iff func.output body in
            rw oks ((λ h. shape.0 (found.0 h)), λ h. found.1 (shape.1 h))),
        handed,
        handler,
      )
