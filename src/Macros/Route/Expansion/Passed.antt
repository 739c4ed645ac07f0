-- ===== src/Macros/Route/Expansion/Passed.antt =====
-- The keys of the attribute that a route macro hands on.
use modular_rust_platform.Base.{
  String, true, ◌≡◌, refl, sym, ap, ◌∙◌, ◌⊎◌, ◌↔◌, inl, inr, Option, none, some, List, [], ◌∷◌,
  ◌++◌, In, ok, drop, Bool-cases, err-ne-ok, ok_injective, arith, append-nil, eq_iff, subst,
  false-ne-true,
}
use modular_rust_platform.Base.Text.{text_eq}
use modular_rust_platform.Macros.Syntax.{RustType}
use modular_rust_platform.Macros.Keys.{Tokens, AttrKey}
use modular_rust_platform.Macros.Route.{
  TokenLibrary, ItemFn, SignatureInference, Param, Argument, method_key, operation_id, pass_through,
  explicit_request_body, inferred_request_body, responses, params, normalize, find_path_literal,
}
use modular_rust_platform.Macros.Route.Expansion.{
  key_inner, inferred_params, lists_200, responses_argument, agreed_body, request_body_argument,
  is_inferred_key, pass_through_keys, params_argument, as_list, path_args,
}

-- The tokens of the arguments that are handed on.
abbrev pub passed : List Argument → List Tokens
passed [] = []
passed (pass_through tokens ∷ arguments) = tokens ∷ passed arguments
passed (_ ∷ arguments) = passed arguments

passed-append : (xs ys : List Argument) → passed (xs ++ ys) ≡ passed xs ++ passed ys
passed-append [] ys = refl
passed-append (pass_through tokens ∷ xs) ys = ap (tokens ∷◌) (passed-append xs ys)
passed-append (method_key _ ∷ xs) ys = passed-append xs ys
passed-append (operation_id _ ∷ xs) ys = passed-append xs ys
passed-append (responses _ _ ∷ xs) ys = passed-append xs ys
passed-append (explicit_request_body _ ∷ xs) ys = passed-append xs ys
passed-append (inferred_request_body _ ∷ xs) ys = passed-append xs ys
passed-append (params _ _ ∷ xs) ys = passed-append xs ys

-- A key whose meaning the macro infers or merges.
abbrev pub IsInferred : String → Type 0
IsInferred name = (name ≡ "request_body") ⊎ (name ≡ "responses") ⊎ (name ≡ "params")

-- The tokens are those of a key of the attribute that is handed on.
abbrev pub IsHandedOn : List AttrKey → Tokens → Type 0
IsHandedOn keys tokens =
    (key : AttrKey) × In key keys × (key.tokens ≡ tokens) × ¬ IsInferred key.name

is_inferred_key_iff : (name : String) → (is_inferred_key name ≡ true) ↔ IsInferred name
is_inferred_key_iff name =
    ground (arith, eq_iff name "request_body", eq_iff name "responses", eq_iff name "params")

IsHandedOn-later :
    (k : AttrKey) (keys : List AttrKey) (tokens : Tokens)
    → IsHandedOn keys tokens
    → IsHandedOn (k ∷ keys) tokens
IsHandedOn-later k keys tokens (key, i, e, n) = (key, inr i, e, n)

pass_through_keys_iff :
    (keys : List AttrKey) (tokens : Tokens)
    → In tokens (passed (pass_through_keys keys)) ↔ IsHandedOn keys tokens
unfolding pass_through_keys
pass_through_keys_iff [] tokens = ((λ h. absurd h), λ (key, i, e, n). absurd i)
pass_through_keys_iff (k ∷ keys) tokens =
    let later = pass_through_keys_iff keys tokens in
    elim (Bool-cases (is_inferred_key k.name)) [
      | inl on ↦
          rw (on, pass_through_keys)
            (
              (λ h. IsHandedOn-later k keys tokens (later.0 h)),
              λ (key, i, e, n). elim i [
                | inl same ↦ absurd (
                    n (
                      subst (λ x. IsInferred x.name) (sym same)
                        ((is_inferred_key_iff k.name).0 on)))
                | inr other ↦ later.1 (key, other, e, n)
              ],
            )
      | inr off ↦
          rw (off, pass_through_keys)
            (
              (λ h. elim h [
                | inl same ↦ (
                  k,
                  inl refl,
                  sym same,
                  λ bad. false-ne-true (sym off ∙ (is_inferred_key_iff k.name).1 bad),
                )
                | inr other ↦ IsHandedOn-later k keys tokens (later.0 other)
              ]),
              λ (key, i, e, n). elim i [
                | inl same ↦ inl (sym e ∙ ap (λ x. x.tokens) same)
                | inr other ↦ inr (later.1 (key, other, e, n))
              ],
            )
    ]

params_argument-passed :
    (ps : List Param) (inner : Option Tokens) → passed (as_list (params_argument ps inner)) ≡ []
unfolding params_argument
params_argument-passed [] none = refl
params_argument-passed [] (some inner) = refl
params_argument-passed (p ∷ ps) inner = refl

responses_argument-passed :
    (body : Option RustType) (inner : Option Tokens) (response : Argument) (rest : List Argument)
    → responses_argument body inner ≡ ok response
    → passed (response ∷ rest) ≡ passed rest
unfolding responses_argument
responses_argument-passed none none response rest e = absurd (err-ne-ok e)
responses_argument-passed none (some inner) response rest e = rw (sym (ok_injective e)) refl
responses_argument-passed (some body) none response rest e = rw (sym (ok_injective e)) refl
responses_argument-passed (some body) (some inner) response rest e =
    elim (Bool-cases (lists_200 inner)) [
      | inl twice ↦ absurd (err-ne-ok (rw (twice, responses_argument) at e))
      | inr once ↦ rw (sym (ok_injective (rw (once, responses_argument) at e))) refl
    ]

module _ (lib : TokenLibrary) where
  request_body-passed :
      (key : Option AttrKey) (inferred : Option RustType) (body : Option Argument)
      → request_body_argument lib key inferred ≡ ok body
      → passed (as_list body) ≡ []
  unfolding request_body_argument agreed_body
  request_body-passed none none body e = rw (sym (ok_injective e)) refl
  request_body-passed none (some ty) body e = rw (sym (ok_injective e)) refl
  request_body-passed (some key) none body e = rw (sym (ok_injective e)) refl
  request_body-passed (some key) (some ty) body e =
      elim (Bool-cases
        (text_eq (normalize lib (drop 2 key.tokens)) (normalize lib (lib.type_tokens ty)))) [
          | inl same ↦ rw (sym (ok_injective (rw (same, agreed_body) at e))) refl
          | inr other ↦ absurd (err-ne-ok (rw (other, agreed_body) at e))
        ]

  -- The arguments hand on the attribute's keys, all but the three that are inferred or merged.
  pub path_args-passed :
      (method : String) (func : ItemFn) (keys : List AttrKey) (sig : SignatureInference)
      (key : Option AttrKey) (inferred output : Option RustType) (inner : Option Tokens)
      (body : Option Argument) (response : Argument) (tokens : Tokens)
      → request_body_argument lib key inferred ≡ ok body
      → responses_argument output inner ≡ ok response
      → In tokens (passed (path_args lib method func keys sig body response))
        ↔ IsHandedOn keys tokens
  unfolding path_args
  path_args-passed method func keys sig key inferred output inner body response tokens b r =
      let parameters =
        params_argument (inferred_params (find_path_literal lib keys) sig)
          (key_inner "params" keys) in
      rw
        (
          passed-append (pass_through_keys keys ++ as_list body) (response ∷ as_list parameters),
          passed-append (pass_through_keys keys) (as_list body),
          request_body-passed key inferred body b,
          responses_argument-passed output inner response (as_list parameters) r,
          params_argument-passed (inferred_params (find_path_literal lib keys) sig)
              (key_inner "params" keys),
          append-nil (passed (pass_through_keys keys)),
          append-nil (passed (pass_through_keys keys)),
        )
        (pass_through_keys_iff keys tokens)
