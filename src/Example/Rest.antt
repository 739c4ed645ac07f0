-- ===== src/Example/Rest.antt =====
-- crates/stano-example-app/rest-api: the handlers, each with the service that it takes from the context, and the
-- world that it leaves. `map_err` of an identifier that does not parse is the code's own message.
pub mod Lifecycle
use modular_rust_platform.Base.{String, List, map, Result, ok, err}
use modular_rust_platform.Errors.Service.{ServiceError, invalid_input}
use modular_rust_platform.Errors.Api.{ApiError, from_service_error}
use modular_rust_platform.Example.Domain.{
  UuidLibrary, WidgetId, from_str, display, Widget, WidgetService,
}

pub record WidgetResponse : Type 0 where
  pub id : String
  pub name : String

-- `CreateWidgetRequest` and `UpdateWidgetRequest`
pub record WidgetRequest : Type 0 where
  pub name : String

pub health_handler : String
health_handler = "ok"

module _ (lib : UuidLibrary) where
  open lib use {World}

  -- `impl From<Widget> for WidgetResponse`
  unfoldable pub to_response : Widget lib → WidgetResponse
  unfolding display
  to_response widget = record { id = display lib widget.id; name = widget.name }

  -- `.await?`, which makes an `ApiError` of a `ServiceError`, and `Ok(AppJson(widget.into()))`.
  unfoldable pub respond : Result (Widget lib) ServiceError → Result WidgetResponse ApiError
  unfolding from_service_error to_response
  respond (ok widget) = ok (to_response widget)
  respond (err e) = err (from_service_error e)

  unfoldable pub invalid_id : ApiError
  unfolding from_service_error
  invalid_id = from_service_error (invalid_input "invalid widget id")

  module _ (service : WidgetService lib) where
    unfoldable pub create_widget_handler :
        WidgetRequest → World → Result WidgetResponse ApiError × World
    unfolding respond
    create_widget_handler req w =
        let (created, after) = service.create req.name w in (respond created, after)

    unfoldable pub get_widget_handler : String → World → Result WidgetResponse ApiError
    unfolding respond invalid_id from_str
    get_widget_handler id w = elim (from_str lib id) [
      | err e ↦ err invalid_id
      | ok widget_id ↦ respond (service.get widget_id w)
    ]

    unfoldable pub update_widget_handler :
        String → WidgetRequest → World → Result WidgetResponse ApiError × World
    unfolding respond invalid_id from_str
    update_widget_handler id req w = elim (from_str lib id) [
      | err e ↦ (err invalid_id, w)
      | ok widget_id ↦
          let (saved, after) = service.update record { id = widget_id; name = req.name } w in
          (respond saved, after)
    ]

    unfoldable pub list_widgets_admin_handler : World → Result (List WidgetResponse) ApiError
    unfolding from_service_error to_response
    list_widgets_admin_handler w = elim (service.list w) [
      | ok widgets ↦ ok (map to_response widgets)
      | err e ↦ err (from_service_error e)
    ]
