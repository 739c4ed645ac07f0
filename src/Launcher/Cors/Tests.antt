-- ===== src/Launcher/Cors/Tests.antt =====
-- A production configuration with one exact origin and one suffix, over headers that are any text.
use modular_rust_platform.Base.{true, false, some, [], ◌∷◌, ◌≡◌, refl}
use modular_rust_platform.Base.Text.{Text, codes, text_eq, ends_with, strip_prefix}
use modular_rust_platform.Launcher.Observability.{f64_one, grpc}
use modular_rust_platform.Launcher.Server.{BootstrapConfig}
use modular_rust_platform.Launcher.Cors.{
  HeaderValues, Allows, Named, cors_layer, matches_origin, cors_layer-credentials,
}

abbrev any_text : HeaderValues
any_text = record { HeaderValue = Text; parse = λ t. some t; to_str = λ t. some t }

abbrev production : BootstrapConfig
production = record {
  port = 8080;
  cors_origins = codes "https://a.com" ∷ [];
  cors_origin_suffixes = codes ".b.com" ∷ [];
  cors_dev_origins = [];
  is_dev = false;
  observability = record {
    enabled = false;
    protocol = grpc;
    service_name = "app";
    service_version = "0.0.0";
    resource_attributes = [];
    trace_sample_ratio = f64_one;
    log_filter = "info";
    metrics_enabled = false;
    prometheus_enabled = true;
    http_logging_enabled = true;
    process_metrics_enabled = false;
  };
  enable_swagger = false;
}

abbrev origin : Text
origin = codes "https://x.b.com"

credentials-on : (cors_layer any_text production).allow_credentials ≡ true
unfolding cors_layer
credentials-on = refl

origin-allowed : Allows any_text (cors_layer any_text production).allow_origin origin
unfolding cors_layer matches_origin text_eq ends_with strip_prefix
origin-allowed = refl

cors_layer-credentials_example : Named any_text production origin
cors_layer-credentials_example =
    cors_layer-credentials any_text production origin credentials-on origin-allowed
