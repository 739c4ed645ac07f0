-- ===== src/Macros/Route/Signature.antt =====
-- What `inspect_signature` finds, read off the parameters one wrapper at a time.
use modular_rust_platform.Base.{
  ℕ, suc, ◌+◌, String, Option, none, some, List, [], ◌∷◌, ◌++◌, append-nil, append_assoc, length,
  ◌≡◌, refl, ◌∙◌, arith,
}
use modular_rust_platform.Macros.Syntax.{RustType}
use modular_rust_platform.Macros.Route.{
  FnArg, receiver, typed, ItemFn, extract_type_arg, SignatureInference, push_json, count_path,
  count_query, inspect_inputs, inspect_signature, get_or_insert,
}

abbrev pub with_type : Option RustType → List RustType → List RustType
with_type none types = types
with_type (some inner) types = inner ∷ types

-- The `T`s of the parameters of type `wrapper<T>`, in their order.
unfoldable pub wrapped_types : String → List FnArg → List RustType
unfolding extract_type_arg
wrapped_types wrapper [] = []
wrapped_types wrapper (receiver ∷ inputs) = wrapped_types wrapper inputs
wrapped_types wrapper (typed ty ∷ inputs) =
    with_type (extract_type_arg ty wrapper) (wrapped_types wrapper inputs)

-- The first of the types, unless there is one already.
abbrev first_of : Option RustType → List RustType → Option RustType
first_of (some ty) types = some ty
first_of none [] = none
first_of none (ty ∷ types) = some ty

-- An inference that has seen more parameters.
abbrev extend :
    List RustType → List RustType → List RustType → SignatureInference → SignatureInference
extend json paths queries s = record {
  app_json_types = s.app_json_types ++ json;
  app_path_type = first_of s.app_path_type paths;
  app_path_count = s.app_path_count + length paths;
  app_query_type = first_of s.app_query_type queries;
  app_query_count = s.app_query_count + length queries;
}

first_of-nil : (ty : Option RustType) → first_of ty [] ≡ ty
first_of-nil none = refl
first_of-nil (some ty) = refl

add_zero : (n : ℕ) → n + 0 ≡ n
add_zero n = omega arith

zero_add : (n : ℕ) → 0 + n ≡ n
zero_add n = omega arith

extend-nil : (s : SignatureInference) → s ≡ extend [] [] [] s
extend-nil s =
    rw
      (
        append-nil s.app_json_types,
        first_of-nil s.app_path_type,
        first_of-nil s.app_query_type,
        add_zero s.app_path_count,
        add_zero s.app_query_count,
      )
      refl

extend-push_json :
    (found_type : Option RustType) (json paths queries : List RustType) (s : SignatureInference)
    → extend json paths queries (push_json found_type s)
      ≡ extend (with_type found_type json) paths queries s
unfolding push_json
extend-push_json none json paths queries s = refl
extend-push_json (some ty) json paths queries s =
    rw (append_assoc s.app_json_types (ty ∷ []) json) refl

first_of-get_or_insert :
    (seen : Option RustType) (ty : RustType) (types : List RustType)
    → first_of (get_or_insert seen ty) types ≡ first_of seen (ty ∷ types)
first_of-get_or_insert none ty types = refl
first_of-get_or_insert (some before) ty types = refl

add_suc : (n k : ℕ) → n + 1 + k ≡ n + suc k
add_suc n k = omega arith

extend-count_path :
    (found_type : Option RustType) (json paths queries : List RustType) (s : SignatureInference)
    → extend json paths queries (count_path found_type s)
      ≡ extend json (with_type found_type paths) queries s
unfolding count_path
extend-count_path none json paths queries s = refl
extend-count_path (some ty) json paths queries s =
    rw (first_of-get_or_insert s.app_path_type ty paths, add_suc s.app_path_count (length paths))
      refl

extend-count_query :
    (found_type : Option RustType) (json paths queries : List RustType) (s : SignatureInference)
    → extend json paths queries (count_query found_type s)
      ≡ extend json paths (with_type found_type queries) s
unfolding count_query
extend-count_query none json paths queries s = refl
extend-count_query (some ty) json paths queries s =
    rw
      (
        first_of-get_or_insert s.app_query_type ty queries,
        add_suc s.app_query_count (length queries),
      )
      refl

inspect_inputs-extend :
    (inputs : List FnArg) (s : SignatureInference)
    → inspect_inputs inputs s
      ≡ extend
          (wrapped_types "AppJson" inputs)
          (wrapped_types "AppPath" inputs)
          (wrapped_types "AppQuery" inputs)
          s
unfolding inspect_inputs wrapped_types
inspect_inputs-extend [] s = extend-nil s
inspect_inputs-extend (receiver ∷ inputs) s = inspect_inputs-extend inputs s
inspect_inputs-extend (typed ty ∷ inputs) s =
    inspect_inputs-extend inputs _
    ∙ extend-count_query (extract_type_arg ty "AppQuery") json paths queries _
    ∙ extend-count_path (extract_type_arg ty "AppPath") json paths _ _
    ∙ extend-push_json (extract_type_arg ty "AppJson") json _ _ s
  where
    json : List RustType
    json = wrapped_types "AppJson" inputs

    paths : List RustType
    paths = wrapped_types "AppPath" inputs

    queries : List RustType
    queries = wrapped_types "AppQuery" inputs

-- What a handler's signature says: the types of its parameters of each kind.
abbrev pub signature_of : List FnArg → SignatureInference
signature_of inputs = record {
  app_json_types = wrapped_types "AppJson" inputs;
  app_path_type = first_of none (wrapped_types "AppPath" inputs);
  app_path_count = length (wrapped_types "AppPath" inputs);
  app_query_type = first_of none (wrapped_types "AppQuery" inputs);
  app_query_count = length (wrapped_types "AppQuery" inputs);
}

pub inspect_signature_lem : (func : ItemFn) → inspect_signature func ≡ signature_of func.inputs
unfolding inspect_signature
inspect_signature_lem func =
    inspect_inputs-extend func.inputs _
    ∙ rw
        (
          zero_add (length (wrapped_types "AppPath" func.inputs)),
          zero_add (length (wrapped_types "AppQuery" func.inputs)),
        )
        refl
