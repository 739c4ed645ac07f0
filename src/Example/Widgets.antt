-- ===== src/Example/Widgets.antt =====
-- What the widget store promises: a map from identifiers to widgets, and what each operation makes of it.
use modular_rust_platform.Base.{
  String, ◌≡◌, ◌≢◌, ◌↔◌, Option, none, some, List, In, Result, ok, err,
}
use modular_rust_platform.Errors.Service.{ServiceError, not_found, internal}
use modular_rust_platform.Example.Domain.{UuidLibrary, WidgetId, Widget, WidgetService}

module _ (lib : UuidLibrary) where
  abbrev pub WidgetMap : Type 0
  WidgetMap = WidgetId lib → Option (Widget lib)

  abbrev pub Same : WidgetMap → WidgetMap → Type 0
  Same m after = (id : WidgetId lib) → after id ≡ m id

  -- The widget is stored under its identifier, and nothing else changes.
  abbrev pub Stored : WidgetMap → Widget lib → WidgetMap → Type 0
  Stored m widget after =
      (after widget.id ≡ some widget) × ((id : WidgetId lib) → id ≢ widget.id → after id ≡ m id)

  -- How the database of the store can fail, by operation: the causes of the failure.
  pub record Failures : Type 1 where
    pub create_fails : String → lib.World → String → Type 0
    pub get_fails : WidgetId lib → lib.World → String → Type 0
    pub list_fails : lib.World → String → Type 0
    pub update_fails : Widget lib → lib.World → String → Type 0

  abbrev pub Created :
      (String → Type 0) → WidgetMap → String → Result (Widget lib) ServiceError → WidgetMap → Type 0
  Created Fails m name (ok widget) after =
      (widget.name ≡ name) × (m widget.id ≡ none) × Stored m widget after
  Created Fails m name (err (internal cause)) after = Fails cause × Same m after
  Created Fails m name (err _) after = ⊥

  abbrev pub Got :
      (String → Type 0) → WidgetMap → WidgetId lib → Result (Widget lib) ServiceError → Type 0
  Got Fails m id (ok widget) = (m id ≡ some widget) × (widget.id ≡ id)
  Got Fails m id (err not_found) = m id ≡ none
  Got Fails m id (err (internal cause)) = Fails cause
  Got Fails m id (err _) = ⊥

  abbrev pub Listed :
      (String → Type 0) → WidgetMap → Result (List (Widget lib)) ServiceError → Type 0
  Listed Fails m (ok widgets) =
      (widget : Widget lib) → In widget widgets ↔ (m widget.id ≡ some widget)
  Listed Fails m (err (internal cause)) = Fails cause
  Listed Fails m (err _) = ⊥

  abbrev pub Updated :
      (String → Type 0)
      → WidgetMap
      → Widget lib
      → Result (Widget lib) ServiceError
      → WidgetMap
      → Type 0
  Updated Fails m widget (ok saved) after =
      (saved ≡ widget) × ((old : Widget lib) × (m widget.id ≡ some old)) × Stored m widget after
  Updated Fails m widget (err not_found) after = (m widget.id ≡ none) × Same m after
  Updated Fails m widget (err (internal cause)) after = Fails cause × Same m after
  Updated Fails m widget (err _) after = ⊥

  -- A service that is such a map in every world, and whose failures are those of its database.
  pub record IsWidgetStore (view : lib.World → WidgetMap) (failures : Failures)
      (service : WidgetService lib) : Type 0 where
    pub create_law :
        (name : String) (w : lib.World)
        → Created
            (failures.create_fails name w)
            (view w)
            name
            (service.create name w).0
            (view (service.create name w).1)
    pub get_law :
        (id : WidgetId lib) (w : lib.World)
        → Got (failures.get_fails id w) (view w) id (service.get id w)
    pub list_law : (w : lib.World) → Listed (failures.list_fails w) (view w) (service.list w)
    pub update_law :
        (widget : Widget lib) (w : lib.World)
        → Updated
            (failures.update_fails widget w)
            (view w)
            widget
            (service.update widget w).0
            (view (service.update widget w).1)
