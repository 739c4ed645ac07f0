-- ===== src/Launcher/Pipeline/Tests.antt =====
-- An application behind an authorization that asks for a token, with a handler that panics and one that
-- does not finish, under layers that do what their documentation says and nothing else.
use modular_rust_platform.Base.{
  ap, ◌==◌, ℕ, ◌+◌, String, true, false, none, some, [], ◌∷◌, ◌≡◌, ◌≢◌, ◌⊎◌, inl, inr, refl, ok,
  err, str_eq, if◌then◌else◌, Bool-cases, eq_iff, false-ne-true,
}
use modular_rust_platform.Errors.Api.{Response}
use modular_rust_platform.Security.Jwt.{Claims, decode_jwt, JsonWebToken, expired_signature}
use modular_rust_platform.Security.Builder.{
  Matchit, resolves, hangs, ClaimsValidator, Chain, authenticated, permit_all,
}
use modular_rust_platform.Security.Hook.{PostAuthorizationHook, layer}
use modular_rust_platform.Base.Text.{codes, text_eq, strip_prefix}
use modular_rust_platform.Security.Token.{extract_token, bearer_token, cookie_token}
use modular_rust_platform.Security.Layer.{
  validation, Request, call, check, serve, apply_effect, decoded, select_effect,
}
use modular_rust_platform.Launcher.Observability.{f64_one, grpc}
use modular_rust_platform.Launcher.Responses.{Headers, str}
use modular_rust_platform.Launcher.Server.{BootstrapConfig}
use modular_rust_platform.Launcher.Pipeline.Stack.{
  Arrival, World, Run, Service, replied, unwound, unfinished,
}
use modular_rust_platform.Launcher.Pipeline.{app, unused, record_http_metrics}
use modular_rust_platform.Launcher.Metrics.{before_next}
use modular_rust_platform.Launcher.Pipeline.Outer.{HasSecurityHeaders}
use modular_rust_platform.Launcher.Pipeline.Refused.{app-refused}
use modular_rust_platform.Launcher.Pipeline.Replies.{app-replies, Always, AnswersIfNext, Validates}
use modular_rust_platform.Launcher.Pipeline.Answers.{Ends, app-answers}
use modular_rust_platform.Launcher.Pipeline.Answers.Endings.{answered, panicked, calm, in_time}
use modular_rust_platform.Launcher.Pipeline.RequestId.{app-request_id}
use modular_rust_platform.Launcher.Pipeline.RequestId.Runs.{Bare}
use modular_rust_platform.Launcher.Pipeline.Plain.{any_text, no_headers, status_only, plain}

abbrev exact : Matchit
exact = record {
  Router = String;
  InsertError = String;
  insert = λ p. ok p;
  at = λ p path. str_eq p path;
}

abbrev no_tokens : JsonWebToken ℕ
no_tokens = record {
  EncodingKey = Unit {0};
  DecodingKey = Unit {0};
  encoding_key_from_ec_pem = λ pem. ok tt;
  decoding_key_from_ec_pem = λ pem. ok tt;
  encode = λ claims key. err "no key";
  decode = λ token key. err expired_signature;
}

abbrev chain : Chain exact ℕ
chain = record {
  rules = [];
  any_request = authenticated;
  jwt_config = record {
    private_key_pem = "private";
    public_key_pem = "public";
    expiration_seconds = 3600;
  };
  claims_validator = none;
  cookie_name = none;
}

abbrev config : BootstrapConfig
config = record {
  port = 8080;
  cors_origins = [];
  cors_origin_suffixes = [];
  cors_dev_origins = [];
  is_dev = false;
  observability = record {
    enabled = false;
    protocol = grpc;
    service_name = "app";
    service_version = "0.0.0";
    resource_attributes = [];
    trace_sample_ratio = f64_one;
    log_filter = "info";
    metrics_enabled = false;
    prometheus_enabled = true;
    http_logging_enabled = true;
    process_metrics_enabled = false;
  };
  enable_swagger = false;
}

-- The handlers count their calls.
abbrev router : Service ℕ ℕ
router (a, w) =
    let called : World ℕ = record w { state = w.state + 1 } in
    if str_eq a.request.path "/panic"
    then (unwound (str "boom"), called)
    else if str_eq a.request.path "/slow"
    then (unfinished, called)
    else (replied (status_only 200) no_headers, called)

abbrev arrival : String → Arrival ℕ
arrival path = record {
  request = record {
    method = "GET";
    path = path;
    headers = record { authorization = none; cookie = none };
    extensions = none;
  };
  request_id = none;
  uri = path;
  matched_path = some path;
}

abbrev world : World ℕ
world = record {
  now = 5;
  meter = record { added = λ k. 0; subtracted = λ k. 0; durations = [] };
  requests = [];
  errors = [];
  panics = [];
  counted = [];
  state = 0;
}

abbrev trace_id : Arrival ℕ → String
trace_id a = "trace"

get-ne-options : ◌≢◌ {A = String} "GET" "OPTIONS"
get-ne-options e = false-ne-true ((eq_iff "GET" "OPTIONS").1 e)

refused : (call exact no_tokens chain (λ req. unused) (arrival "/x").request).reached ≡ none
unfolding call check serve apply_effect decoded select_effect extract_token bearer_token
    cookie_token
refused = refl

app-refused_example :
    (r : Response) × (h : Headers) × ((r.status ≡ 401) ⊎ (r.status ≡ 403))
    × (app any_text exact no_tokens plain trace_id config
          (some chain)
          none
          router
          (arrival "/x", world)
        ≡ (replied r h, record world { counted = ("GET", r.status) ∷ [] }))
    × HasSecurityHeaders h
unfolding validation
app-refused_example =
    app-refused any_text exact no_tokens plain trace_id config chain none router (arrival "/x")
      world refl refused get-ne-options

-- One token, a validator that accepts its claims and would hang on others, and a hook that counts.
abbrev claims : Claims ℕ
claims = record { sub = "user"; session_id = "session"; exp = 9999999999; ext = 1 }

abbrev one_token : JsonWebToken ℕ
one_token = record {
  EncodingKey = Unit {0};
  DecodingKey = Unit {0};
  encoding_key_from_ec_pem = λ pem. ok tt;
  decoding_key_from_ec_pem = λ pem. ok tt;
  encode = λ claims key. ok (codes "token");
  decode = λ token key. if text_eq token (codes "token") then ok claims else err expired_signature;
}

abbrev validator : ClaimsValidator ℕ
validator = record { course = λ c. if c.ext == 1 then resolves else hangs; verdict = λ c. ok tt }

abbrev validated_chain : Chain exact ℕ
validated_chain = record chain { claims_validator = some validator }

abbrev counting : PostAuthorizationHook (Arrival ℕ × World ℕ) (Run ℕ)
counting = record { apply = λ (a, w) next. next (a, record w { state = w.state + 1 }) }

abbrev signed_in : String → Arrival ℕ
signed_in path = record (arrival path) {
  request = record {
    method = "GET";
    path = path;
    headers = record { authorization = some (some (codes "Bearer token")); cookie = none };
    extensions = none;
  };
}

counting-AnswersIfNext : AnswersIfNext (some counting)
unfolding layer
counting-AnswersIfNext inner answers a w = answers a (record w { state = w.state + 1 })

validator-resolves : Validates exact one_token (some validated_chain) (signed_in "/panic").request
unfolding validation decoded decode_jwt extract_token bearer_token strip_prefix text_eq
validator-resolves = refl

app-replies_example :
    (r : Response) × (h : Headers) × (v : World ℕ) × (app any_text exact one_token plain trace_id
        config
        (some validated_chain)
        (some counting)
        router
        (signed_in "/panic", world)
      ≡ (replied r h, v))
    × ((◌≡◌ {A = String} "GET" "OPTIONS") ⊎ HasSecurityHeaders h)
app-replies_example =
    app-replies any_text exact one_token plain trace_id config (some validated_chain)
      (some counting) router counting-AnswersIfNext (signed_in "/panic") world validator-resolves

router-Bare : Always Bare router
router-Bare a w = elim (Bool-cases (str_eq a.request.path "/panic")) [
  | inl panics ↦ rw panics tt
  | inr quiet ↦ elim (Bool-cases (str_eq a.request.path "/slow")) [
    | inl slow ↦ rw (quiet, slow) tt
    | inr quick ↦ rw (quiet, quick) refl
  ]
]

app-request_id_example :
    (r : Response) × (h : Headers) × (v : World ℕ) × (app any_text exact no_tokens plain trace_id
        config none none router
        (arrival "/slow", world)
      ≡ (replied r h, v))
    × ((h "x-request-id" ≡ none)
        ⊎ ((h "x-request-id" ≡ none) × ((r.status ≡ 401) ⊎ (r.status ≡ 403) ⊎ (r.status ≡ 413))))
app-request_id_example =
    app-request_id any_text exact no_tokens plain trace_id config none router router-Bare
      (arrival "/slow") world tt get-ne-options

-- A panic is a 500 for the client, is logged once, and leaves the request active in the meter.
panic-logged :
    let (completion, after) =
      app any_text exact no_tokens plain trace_id config none none router
        (arrival "/panic", world) in
    (after.panics ≡ "boom" ∷ [])
    × (after.requests ≡ [])
    × (after.state ≡ 1)
    × (after.meter.added "GET" ≡ 1)
    × (after.meter.subtracted "GET" ≡ 0)
unfolding app record_http_metrics before_next
panic-logged = (refl, refl, refl, refl, refl)

abbrev open_chain : Chain exact ℕ
open_chain = record chain { any_request = permit_all }

let_through :
    (call exact no_tokens open_chain (λ req. unused) (arrival "/panic").request).reached
    ≡ some (arrival "/panic").request
unfolding call check serve apply_effect decoded select_effect extract_token bearer_token
    cookie_token
let_through = refl

router-Ends : Ends (arrival "/panic").request (panicked (str "boom")) router
router-Ends a w same = rw (ap (λ (r : Request ℕ). r.path) same) refl

app-answers_example :
    (r : Response) × (h : Headers) × (v : World ℕ) × (app any_text exact no_tokens plain trace_id
        config
        (some open_chain)
        none
        router
        (arrival "/panic", world)
      ≡ (replied r h, v))
    × HasSecurityHeaders h
    × ((answered r ≡ calm (in_time (panicked (str "boom")))) ⊎ (r ≡ status_only 413))
unfolding validation
app-answers_example =
    app-answers any_text exact no_tokens plain trace_id config open_chain router (arrival "/panic")
      world (arrival "/panic").request (panicked (str "boom")) refl let_through get-ne-options
      router-Ends
