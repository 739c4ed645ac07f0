-- ===== src/Example/Main/Tests.antt =====
-- A start of the application over a database that is reached, and a visitor of its administration.
use modular_rust_platform.Base.{
  ℕ, ◌+◌, String, true, none-ne-some, none, some, [], ◌∷◌, Result, ok, err, ◌≡◌, ◌≢◌, ◌⊎◌, ◌↔◌,
  refl, str_eq, eq_iff, false-ne-true, if◌then◌else◌, Map,
}
use modular_rust_platform.Errors.Api.{Response}
use modular_rust_platform.Security.Jwt.{JsonWebToken, Claims, expired_signature, decode_jwt}
use modular_rust_platform.Security.Builder.{Matchit, Chain}
use modular_rust_platform.Security.Token.{extract_token, bearer_token, cookie_token}
use modular_rust_platform.Security.Layer.Requests.{Presents}
use modular_rust_platform.Di.Container.{Cell}
use modular_rust_platform.Di.Container.Resolve.{done}
use modular_rust_platform.Di.Context.{Environment, validate}
use modular_rust_platform.Seaorm.QueryTracing.{query_tracing_config_from_env}
use modular_rust_platform.Seaorm.DbConfig.{Database, DbConfig, from_url}
use modular_rust_platform.Launcher.Observability.{Kind, Exporters}
use modular_rust_platform.Launcher.Responses.{Headers}
use modular_rust_platform.Launcher.Pipeline.Stack.{Arrival, World, Service, replied}
use modular_rust_platform.Launcher.Pipeline.{unused}
use modular_rust_platform.Launcher.Pipeline.Outer.{HasSecurityHeaders}
use modular_rust_platform.Launcher.Pipeline.Plain.{any_text, plain, status_only, no_headers}
use modular_rust_platform.Example.Access.{AppClaims, build_authorization}
use modular_rust_platform.Example.Access.Admin.{chain_of, build_authorization_lem}
use modular_rust_platform.Example.Startup.{context_with}
use modular_rust_platform.Example.Main.{demo_jwt_config, main, served_app}
use modular_rust_platform.Example.Main.Succeeds.{Succeeds, main_iff}
use modular_rust_platform.Example.Main.Protects.{served_app-admin}

-- A router in which patterns are equal to paths.
abbrev exact : Matchit
exact = record {
  Router = String;
  InsertError = Unit {0};
  insert = λ p. ok p;
  at = λ p path. str_eq p path;
}

abbrev no_tokens : JsonWebToken AppClaims
no_tokens = record {
  EncodingKey = Unit {0};
  DecodingKey = Unit {0};
  encoding_key_from_ec_pem = λ pem. ok tt;
  decoding_key_from_ec_pem = λ pem. ok tt;
  encode = λ claims key. err "no key";
  decode = λ token key. err expired_signature;
}

abbrev reached : Database
reached = record {
  Connection = Unit {0};
  new = λ url. record {
    url = url;
    max_connections = none;
    min_connections = none;
    connect_timeout = none;
    acquire_timeout = none;
    idle_timeout = none;
    max_lifetime = none;
    sqlx_logging = true;
  };
  connect = λ opt. ok tt;
}

abbrev migrated : Unit {0} → Result (Unit {0}) String
migrated connection = ok tt

abbrev instance_number : DbConfig reached → ℕ
instance_number db = 7

abbrev environment : Environment
environment key = if str_eq key "DATABASE_URL" then some "postgres" else none

abbrev bound : ℕ → Result (Unit {0}) String
bound port = ok tt

abbrev ended : Result (Unit {0}) String
ended = ok tt

abbrev stops : Kind → Result (Unit {0}) String
stops kind = ok tt

abbrev no_exporters : Exporters
no_exporters = record {
  prometheus = err "none";
  metric = λ protocol. err "none";
  span = λ protocol. err "none";
  log = λ protocol. err "none";
}

main_iff_example :
    Succeeds exact reached migrated instance_number 1 [] bound ended stops no_exporters none (
      main exact reached migrated instance_number 1 [] bound ended stops no_exporters none
        environment)
    ↔ ((url : String) × (db : DbConfig reached) × (cells : Map Cell) × (chain : Chain exact
          AppClaims)
        × (environment "DATABASE_URL" ≡ some url)
        × (from_url reached url (query_tracing_config_from_env environment) ≡ ok db)
        × (migrated db.connection ≡ ok tt)
        × (validate (context_with reached migrated instance_number 1 [] environment db)
            ≡ done [] cells)
        × (build_authorization exact demo_jwt_config ≡ some chain)
        × (bound 8080 ≡ ok tt)
        × (ended ≡ ok tt))
main_iff_example =
    main_iff exact reached migrated instance_number 1 [] bound ended stops no_exporters none
      environment

abbrev chain : Chain exact AppClaims
chain = chain_of exact (λ p. p) demo_jwt_config

abbrev router : Service AppClaims ℕ
router (a, w) = (replied (status_only 200) no_headers, record w { state = w.state + 1 })

abbrev visit : Arrival AppClaims
visit = record {
  request = record {
    method = "GET";
    path = "/admin/{*rest}";
    headers = record { authorization = none; cookie = none };
    extensions = none;
  };
  request_id = some "id";
  uri = "/admin/";
  matched_path = none;
}

abbrev world : World ℕ
world = record {
  now = 5;
  meter = record { added = λ k. 0; subtracted = λ k. 0; durations = [] };
  requests = [];
  errors = [];
  panics = [];
  counted = [];
  state = 0;
}

abbrev trace_id : Arrival AppClaims → String
trace_id a = "trace"

get-ne-options : ◌≢◌ {A = String} "GET" "OPTIONS"
get-ne-options e = false-ne-true ((eq_iff "GET" "OPTIONS").1 e)

none-presented : ¬ (
    (claims : Claims AppClaims) × Presents exact no_tokens chain
      (λ req. unused)
      visit.request
      claims
    × (claims.ext.role ≡ "ADMIN"))
unfolding extract_token bearer_token cookie_token decode_jwt
none-presented (claims, (t, shown, decoded_as, accepted_as), role) = none-ne-some shown

built : build_authorization exact demo_jwt_config ≡ some chain
built =
    build_authorization_lem exact (λ p. p) demo_jwt_config
      (refl, (refl, (refl, (refl, (refl, (refl, tt))))))

served_app-admin_example :
    (r : Response) × (h : Headers) × ((r.status ≡ 401) ⊎ (r.status ≡ 403))
    × (served_app any_text exact no_tokens plain trace_id router chain (visit, world)
        ≡ (replied r h, record world { counted = ("GET", r.status) ∷ [] }))
    × HasSecurityHeaders h
served_app-admin_example =
    served_app-admin any_text exact (λ p. p) no_tokens plain trace_id router
      (refl, (refl, (refl, (refl, (refl, (refl, tt)))))) chain built visit world
      (refl, (refl, (refl, (refl, (refl, (refl, tt)))))) get-ne-options none-presented
