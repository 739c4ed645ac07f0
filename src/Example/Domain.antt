-- ===== src/Example/Domain.antt =====
-- crates/stano-example-app/domain and crates/stano-example-app/services: the widget, the traits of its repository
-- and its service as records of operations, and the service. `WidgetId` is the type that `id_type!` of
-- crates/stano-common/src/id_types.rs makes.
use modular_rust_platform.Base.{String, List, Result, ok, err}
use modular_rust_platform.Errors.Service.{ServiceError}

-- The crate `uuid`. The world, which a call may change, has the clock and the randomness.
pub record UuidLibrary : Type 1 where
  pub Uuid : Type 0
  pub World : Type 0
  pub UuidError : Type 0
  pub now_v7 : World → Uuid × World
  pub parse_str : String → Result Uuid UuidError
  pub to_string : Uuid → String

module _ (lib : UuidLibrary) where
  open lib use {Uuid, World, UuidError, now_v7, parse_str, to_string}

  pub record WidgetId : Type 0 where
    pub as_uuid : Uuid

  unfoldable pub from : Uuid → WidgetId
  from uuid = record { as_uuid = uuid }

  unfoldable pub new : World → WidgetId × World
  unfolding from
  new w = let (uuid, later) = now_v7 w in (from uuid, later)

  unfoldable pub from_str : String → Result WidgetId UuidError
  unfolding from
  from_str s = elim (parse_str s) [ ok uuid ↦ ok (from uuid) | err e ↦ err e ]

  unfoldable pub display : WidgetId → String
  display id = to_string id.as_uuid

  pub record Widget : Type 0 where
    pub id : WidgetId
    pub name : String

  -- The two traits, each method with the world that it leaves.
  pub record WidgetRepository : Type 0 where
    pub create : String → World → Result Widget ServiceError × World
    pub get : WidgetId → World → Result Widget ServiceError
    pub list : World → Result (List Widget) ServiceError
    pub update : Widget → World → Result Widget ServiceError × World

  pub record WidgetService : Type 0 where
    pub create : String → World → Result Widget ServiceError × World
    pub get : WidgetId → World → Result Widget ServiceError
    pub list : World → Result (List Widget) ServiceError
    pub update : Widget → World → Result Widget ServiceError × World

  unfoldable pub widget_service_impl : WidgetRepository → WidgetService
  widget_service_impl repo = record {
    create = λ name w. repo.create name w;
    get = λ id w. repo.get id w;
    list = λ w. repo.list w;
    update = λ widget w. repo.update widget w;
  }
