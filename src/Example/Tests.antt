-- ===== src/Example/Tests.antt =====
-- A sample table with one key, in the world itself.
use modular_rust_platform.Base.{
  String, none, some, Option, List, [], ◌∷◌, Result, ok, err, ◌≡◌, refl, ◌⊎◌, inl, inr, str_eq,
  if◌then◌else◌, ◌↔◌, subst, ok_injective, some_injective, In, sym, ap,
}
use modular_rust_platform.Example.Domain.{UuidLibrary, WidgetService, widget_service_impl}
use modular_rust_platform.Example.Widgets.{IsWidgetStore}
use modular_rust_platform.Example.Persistence.{
  DbErr, record_not_updated, other_db_err, Model, ActiveModel, SeaOrm, seaorm_widget_repository,
}
use modular_rust_platform.Example.Persistence.Table.{
  Rows, IsTable, Inserted, UpdatedRow, widgets_of,
}
use modular_rust_platform.Example.Persistence.Store.{
  database_failures, widget_service_impl-IsWidgetStore,
}
use modular_rust_platform.Example.Rest.{
  WidgetResponse, create_widget_handler, get_widget_handler, update_widget_handler,
}
use modular_rust_platform.Example.Rest.Lifecycle.{
  GetFails, create_widget_handler-get, update_widget_handler-get,
}

-- There is one UUID, and the world is the name of the widget that has it, if there is one.
abbrev parse_key : String → Result (Unit {0}) String
parse_key s = if str_eq s "1" then ok tt else err "not a key"

abbrev World : Type 0
World = Option String

abbrev keyed : UuidLibrary
keyed = record {
  Uuid = Unit {0};
  World = World;
  UuidError = String;
  now_v7 = λ w. (tt, w);
  parse_str = parse_key;
  to_string = λ uuid. "1";
}

abbrev model_with : String → Model keyed
model_with name = record { id = tt; name = name }

abbrev row : World → Rows keyed
row none uuid = none
row (some name) uuid = some (model_with name)

abbrev insert_row : ActiveModel keyed → World → Result (Model keyed) DbErr × World
insert_row active none = (ok (model_with active.name), some active.name)
insert_row active (some name) = (err (other_db_err "duplicate key"), some name)

abbrev update_row : ActiveModel keyed → World → Result (Model keyed) DbErr × World
update_row active none = (err record_not_updated, none)
update_row active (some name) = (ok (model_with active.name), some active.name)

abbrev all_rows : World → List (Model keyed)
all_rows none = []
all_rows (some name) = model_with name ∷ []

abbrev table : SeaOrm keyed
table = record {
  message = λ e. "database";
  insert = insert_row;
  find_by_id = λ uuid w. ok (row w uuid);
  find = λ w. ok (all_rows w);
  update = update_row;
}

insert_row-Inserted :
    (active : ActiveModel keyed) (w : World)
    → Inserted keyed (row w) active (insert_row active w).0 (row (insert_row active w).1)
insert_row-Inserted active none = (refl, (refl, refl, λ uuid other. absurd (other refl)))
insert_row-Inserted active (some name) = λ uuid. refl

update_row-UpdatedRow :
    (active : ActiveModel keyed) (w : World)
    → UpdatedRow keyed (row w) active (update_row active w).0 (row (update_row active w).1)
update_row-UpdatedRow active none = (refl, λ uuid. refl)
update_row-UpdatedRow active (some name) =
    ((model_with name, refl), (refl, refl, λ uuid other. absurd (other refl)))

all_rows-In :
    (w : World) (model : Model keyed) → In model (all_rows w) ↔ (row w model.id ≡ some model)
all_rows-In none model = ((λ h. absurd h), λ e. cc)
all_rows-In (some name) model = (
  (λ h. elim h [ inl e ↦ ap some (sym e) | inr later ↦ absurd later ]),
  λ e. inl (sym (some_injective e)),
)

table-IsTable : IsTable keyed table row
table-IsTable = record {
  key_law = λ w uuid model e. refl;
  clock_law = λ w uuid. refl;
  insert_law = insert_row-Inserted;
  find_by_id_law = λ uuid w located e. cc;
  find_law = λ w models e model.
      subst (λ l. In model l ↔ (row w model.id ≡ some model)) (ok_injective e)
        (all_rows-In w model);
  update_law = update_row-UpdatedRow;
}

abbrev service : WidgetService keyed
service = widget_service_impl keyed (seaorm_widget_repository keyed table)

widget_service_impl-IsWidgetStore_example :
    IsWidgetStore keyed (λ w. widgets_of keyed (row w)) (database_failures keyed table) service
widget_service_impl-IsWidgetStore_example =
    widget_service_impl-IsWidgetStore keyed table row table-IsTable

abbrev response : WidgetResponse
response = record { id = "1"; name = "bolt" }

create_widget_handler-get_example :
    (response.name ≡ "bolt")
    × ((get_widget_handler keyed service "1" (some "bolt") ≡ ok response)
        ⊎ GetFails keyed service
            (λ w. widgets_of keyed (row w))
            (database_failures keyed table)
            (widget_service_impl-IsWidgetStore keyed table row table-IsTable)
            "1"
            (some "bolt")
            (get_widget_handler keyed service "1" (some "bolt")))
unfolding create_widget_handler widget_service_impl seaorm_widget_repository
create_widget_handler-get_example =
    create_widget_handler-get keyed service (λ w. widgets_of keyed (row w))
      (database_failures keyed table)
      (widget_service_impl-IsWidgetStore keyed table row table-IsTable) (λ uuid. refl)
      (record { name = "bolt" }) none response refl

update_widget_handler-get_example :
    ((get_widget_handler keyed service "1" (some "bolt") ≡ ok response)
      ⊎ GetFails keyed service
          (λ w. widgets_of keyed (row w))
          (database_failures keyed table)
          (widget_service_impl-IsWidgetStore keyed table row table-IsTable)
          "1"
          (some "bolt")
          (get_widget_handler keyed service "1" (some "bolt")))
    × (response.name ≡ "bolt")
unfolding update_widget_handler widget_service_impl seaorm_widget_repository
update_widget_handler-get_example =
    update_widget_handler-get keyed service (λ w. widgets_of keyed (row w))
      (database_failures keyed table)
      (widget_service_impl-IsWidgetStore keyed table row table-IsTable) "1"
      (record { name = "bolt" }) (some "nut") response refl
