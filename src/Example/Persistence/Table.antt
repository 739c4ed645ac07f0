-- ===== src/Example/Persistence/Table.antt =====
-- What SeaORM is relied on to do to the rows of the table of crates/stano-example-app/persistence/src/entity.rs.
use modular_rust_platform.Base.{◌≡◌, ◌≢◌, ◌↔◌, Option, none, some, List, In, Result, ok, err}
use modular_rust_platform.Example.Domain.{UuidLibrary, Widget}
use modular_rust_platform.Example.Persistence.{
  DbErr, record_not_updated, other_db_err, Model, ActiveModel, SeaOrm, to_domain,
}
use modular_rust_platform.Example.Widgets.{WidgetMap}

module _ (lib : UuidLibrary) where
  open lib use {Uuid, World, now_v7}

  -- The rows of the table `widgets`, by the primary key.
  abbrev pub Rows : Type 0
  Rows = Uuid → Option (Model lib)

  abbrev pub Written : Rows → ActiveModel lib → Model lib → Rows → Type 0
  Written before active model after =
      (model ≡ record { id = active.id; name = active.name })
      × (after active.id ≡ some model)
      × ((uuid : Uuid) → uuid ≢ active.id → after uuid ≡ before uuid)

  abbrev pub Inserted : Rows → ActiveModel lib → Result (Model lib) DbErr → Rows → Type 0
  Inserted before active (ok model) after =
      (before active.id ≡ none) × Written before active model after
  Inserted before active (err e) after = (uuid : Uuid) → after uuid ≡ before uuid

  abbrev pub UpdatedRow : Rows → ActiveModel lib → Result (Model lib) DbErr → Rows → Type 0
  UpdatedRow before active (ok model) after =
      ((old : Model lib) × (before active.id ≡ some old)) × Written before active model after
  UpdatedRow before active (err record_not_updated) after =
      (before active.id ≡ none) × ((uuid : Uuid) → after uuid ≡ before uuid)
  UpdatedRow before active (err (other_db_err text)) after =
      (uuid : Uuid) → after uuid ≡ before uuid

  -- What the queries do to the rows: a write is whole or does not happen, and a read gives what is there.
  pub record IsTable (orm : SeaOrm lib) (rows : World → Rows) : Type 0 where
    pub key_law :
        (w : World) (uuid : Uuid) (model : Model lib) → rows w uuid ≡ some model → model.id ≡ uuid
    pub clock_law : (w : World) (uuid : Uuid) → rows (now_v7 w).1 uuid ≡ rows w uuid
    pub insert_law :
        (active : ActiveModel lib) (w : World)
        → Inserted (rows w) active (orm.insert active w).0 (rows (orm.insert active w).1)
    pub find_by_id_law :
        (uuid : Uuid) (w : World) (located : Option (Model lib))
        → orm.find_by_id uuid w ≡ ok located
        → located ≡ rows w uuid
    pub find_law :
        (w : World) (models : List (Model lib))
        → orm.find w ≡ ok models
        → (model : Model lib) → In model models ↔ (rows w model.id ≡ some model)
    pub update_law :
        (active : ActiveModel lib) (w : World)
        → UpdatedRow (rows w) active (orm.update active w).0 (rows (orm.update active w).1)

  abbrev pub widget_of : Option (Model lib) → Option (Widget lib)
  widget_of none = none
  widget_of (some model) = some (to_domain lib model)

  -- The widgets that the rows stand for.
  abbrev pub widgets_of : Rows → WidgetMap lib
  widgets_of rows id = widget_of (rows id.as_uuid)
