-- ===== src/Example/Persistence.antt =====
-- crates/stano-example-app/persistence: the mapper and the repository over SeaORM, whose queries on the entity of
-- the table `widgets` are parameters. An `anyhow::Error` is its text.
pub mod Store
pub mod Table
use modular_rust_platform.Base.{String, Option, none, some, List, map, Result, ok, err}
use modular_rust_platform.Errors.Service.{ServiceError, not_found, internal}
use modular_rust_platform.Example.Domain.{
  UuidLibrary, WidgetId, from, new, Widget, WidgetRepository,
}

-- `sea_orm::DbErr`, as far as the repository tells its variants apart.
pub data DbErr : Type 0 where
  record_not_updated : DbErr
  other_db_err : String → DbErr

module _ (lib : UuidLibrary) where
  open lib use {Uuid, World}

  -- `entity::Model`, and `entity::ActiveModel` with both columns set.
  pub record Model : Type 0 where
    pub id : Uuid
    pub name : String

  pub record ActiveModel : Type 0 where
    pub id : Uuid
    pub name : String

  pub record SeaOrm : Type 0 where
    -- The text of an error.
    pub message : DbErr → String
    pub insert : ActiveModel → World → Result Model DbErr × World
    pub find_by_id : Uuid → World → Result (Option Model) DbErr
    pub find : World → Result (List Model) DbErr
    pub update : ActiveModel → World → Result Model DbErr × World

  unfoldable pub to_domain : Model → Widget lib
  unfolding from
  to_domain model = record { id = from lib model.id; name = model.name }

  unfoldable pub to_active_model : Widget lib → ActiveModel
  to_active_model domain = record { id = domain.id.as_uuid; name = domain.name }

  -- `.map_err(..)?`, and the mapper for the model.
  unfoldable pub domain_result :
      (DbErr → ServiceError) → Result Model DbErr → Result (Widget lib) ServiceError
  unfolding to_domain
  domain_result error (ok model) = ok (to_domain model)
  domain_result error (err e) = err (error e)

  unfoldable pub one_widget : Option Model → Result (Widget lib) ServiceError
  unfolding to_domain
  one_widget none = err not_found
  one_widget (some model) = ok (to_domain model)

  module _ (orm : SeaOrm) where
    -- `anyhow::Error::from` and `ServiceError::from`
    abbrev pub internal_error : DbErr → ServiceError
    internal_error e = internal (orm.message e)

    -- The error of `update`, which tells a missing row apart.
    unfoldable pub update_error : DbErr → ServiceError
    update_error record_not_updated = not_found
    update_error (other_db_err text) = internal_error (other_db_err text)

    unfoldable pub create : String → World → Result (Widget lib) ServiceError × World
    unfolding new to_active_model domain_result
    create name w =
        let (id, before) = new lib w in
        let (inserted, after) =
          orm.insert (to_active_model record { id = id; name = name }) before in
        (domain_result internal_error inserted, after)

    unfoldable pub get : WidgetId lib → World → Result (Widget lib) ServiceError
    unfolding one_widget
    get id w = elim (orm.find_by_id id.as_uuid w) [
      | ok located ↦ one_widget located
      | err e ↦ err (internal_error e)
    ]

    unfoldable pub list : World → Result (List (Widget lib)) ServiceError
    unfolding to_domain
    list w = elim (orm.find w) [
      | ok models ↦ ok (map to_domain models)
      | err e ↦ err (internal_error e)
    ]

    unfoldable pub update : Widget lib → World → Result (Widget lib) ServiceError × World
    unfolding to_active_model domain_result update_error
    update widget w =
        let (updated, after) = orm.update (to_active_model widget) w in
        (domain_result update_error updated, after)

    unfoldable pub seaorm_widget_repository : WidgetRepository lib
    unfolding create get list update
    seaorm_widget_repository = record { create = create; get = get; list = list; update = update }
