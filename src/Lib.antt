-- ===== src/Lib.antt =====
-- A modular platform for REST services: a dependency injection container, errors and their HTTP
-- responses, and an authorization layer in front of the handlers.
--
-- Base: Boolean tests, results, lists and maps over native numbers, and strings as lists of code
-- points (`Text`). A `HashMap` is an association list in which `insert` replaces the value of a key
-- where it stands; iteration is in the order of the list, so what is stated of every container holds
-- for each order of iteration.
--
-- Di models crates/stano-di/src. Di.Container is the registry of container.rs: `Container` with its
-- four maps and the ways to register a component. Cycles is `detect_cycles`, the three-color
-- depth-first search with its explicit stack. Its `while let` loop runs on fuel: `budget` gives each
-- root one round for each child of each type that a search can meet and one more to leave that type,
-- which no search can exceed, since a type turns gray once. Resolve is `try_get`, `try_get_trait`, `get`,
-- `get_trait` and `validate`. A factory is application code: a tree of lookups that ends with an
-- instance or a panic. A lookup maps the `OnceLock`s to the `OnceLock`s afterwards; a panic unwinds
-- through the factories that wait, and `validate` catches it. A `get_or_init` that is called from its
-- own initialiser is the outcome `deadlocked`. The fuel of a lookup is the depth of nested factories:
-- two more than the number of cells is enough, since each nested factory runs for another cell.
-- Di.Context is `ApplicationContext` of application_context.rs, `register_all` of lib.rs, and the
-- environments of environment.rs. Safety gathers what a container that was assembled by
-- registrations keeps, under the condition that each factory looks up only what was declared for it,
-- as the code that the macros generate does.
--
-- Errors models crates/stano-common/src (Service) and crates/stano-axum/src/error with the error
-- logging middleware and the extractors of crates/stano-axum/src (Api). A response is its status, its
-- error body and the error among its extensions.
--
-- Security models crates/stano-security/src (Jwt) and crates/stano-axum/src/security: Builder is
-- authorization.rs and pattern.rs, Token and Layer are layer.rs. The crates `matchit` and
-- `jsonwebtoken`, and the inner service, are parameters; a token's signature is as good as what
-- `decode` of `jsonwebtoken` accepts. A claims validator is how its future goes for claims and what it
-- resolves to: Layer is the check where it resolves, and Launcher.Pipeline what becomes of the request where
-- it hangs or panics, outside the timeout and the panic handler. Hook is the post-authorization hook and
-- the request log of crates/stano-axum/src, which stand behind the layer.
--
-- Launcher models crates/stano-launcher/src: Observability is the set-up of the providers and the
-- guard of observability.rs, over what the exporters' `build` and the providers' `shutdown` and
-- `force_flush` return; Server, Cors and Responses are the layers that `run` of server.rs puts
-- around the router, the CORS policy, the security headers and the response to a panic.
--
-- Launcher.Run is `run` as the list of stages that it goes through, for what binding and serving
-- return. Launcher.Metrics is `record_http_metrics` of observability.rs: a step relation on the requests
-- that are in flight, whose futures may be dropped where they wait. Launcher.Config is config.rs and
-- the reading of the telemetry configuration.
--
-- Launcher.Pipeline is the application that `run` serves: the router inside the layers of Launcher.Server,
-- in their order, each of them the middleware of this repository that Responses, Metrics, Errors.Api and
-- Security model, or a layer of tower-http. Those are the fields of `Stack.Tower`, with what their
-- documentation says of the service inside: that it is passed on, timed out, caught, refused, or answered
-- by CORS. A service takes a request through a world, and its future replies, unwinds, or is not
-- finished at the deadline of the timeout. Launcher.Routes is `collect_routes`, and the scrape of the
-- Prometheus registry.
--
-- Seaorm models crates/stano-seaorm/src: QueryTracing is query_tracing.rs, with the configuration, the
-- operation of a statement, and what the callback records, traces and logs for a query, with the
-- instruments that it resolves at the first one, from the meter and the tracer provider (Instruments), and
-- the texts that a threshold is read from (Bounds); DbConfig is `from_url` of db_config.rs.
--
-- Macros models the procedural macros. Syntax is what they look into of a Rust type. Service is
-- crates/stano-di-macros/src/lib.rs: an expansion is the data that the generated code is made of, and
-- Service.Generated is what that code does in a container. Keys, Placeholders and Route are
-- crates/stano-route-macros/src/lib.rs: the splitting of the attribute, the names in a path, and the
-- expansion of a handler, as the list of arguments of `#[utoipa::path(..)]`. The parser `syn`, the
-- printing of tokens, the crate `proc_macro_crate` and the numbers of types are parameters.
--
-- Example models crates/stano-example-app: Domain is its domain and services with the identifiers of
-- crates/stano-common/src/id_types.rs, Persistence its repository, Rest and Access its rest-api and
-- security, Startup its launcher, and Main its `main`, from the environment to the end of `run`,
-- with the application that is served meanwhile. The methods of a trait take the world and return it; the
-- world has the clock and the database. The crates `uuid` and
-- `sea_orm` are parameters, and Persistence.Table says what the queries are relied on to do to the rows
-- of the table. Widgets is what a store of widgets promises, without rows, its failures those of a database.
--
-- The parts meet where the middleware answers a refused request with the response of a service error
-- (Errors.Api), where a chain that Builder finishes is what Layer checks requests with (and
-- Example.Access for the rules of an application), where what `#[service]` generates registers in a
-- container (Macros.Service.Generated, Example.Startup), where `run` ends with the guard of the
-- telemetry (Launcher.Run), and where every middleware stands in the application that is served
-- (Launcher.Pipeline, Example.Main).
--
-- Not modelled: sockets and signals, which only end the serving; the sampler, the log filter and the layers
-- of the subscriber, which are built from the configuration by OpenTelemetry and tracing; the database
-- migration, a table definition for a library; the re-exports of the starters; the lifetime and sharing
-- of an `Arc`, of which a component's value keeps the identity only.
pub mod Base
pub mod Di
pub mod Errors
pub mod Example
pub mod Launcher
pub mod Macros
pub mod Security
pub mod Seaorm
