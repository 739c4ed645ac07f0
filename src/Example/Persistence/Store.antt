-- ===== src/Example/Persistence/Store.antt =====
-- The repository, over a table that behaves as SeaORM documents, is a map of widgets.
use modular_rust_platform.Base.{
  String, ◌≡◌, ◌≢◌, refl, sym, ap, ◌∙◌, subst, inl, inr, some, List, map, In, In-map, Result, ok,
  err, Result-cases, some_injective, none-ne-some, Option-cases,
}
use modular_rust_platform.Example.Domain.{
  UuidLibrary, WidgetId, from, new, Widget, widget_service_impl,
}
use modular_rust_platform.Example.Persistence.{
  DbErr, record_not_updated, other_db_err, Model, ActiveModel, SeaOrm, to_domain, to_active_model,
  domain_result, one_widget, internal_error, update_error, create, get, list, update,
  seaorm_widget_repository,
}
use modular_rust_platform.Example.Persistence.Table.{
  Rows, Written, Inserted, UpdatedRow, IsTable, widget_of, widgets_of,
}
use modular_rust_platform.Example.Widgets.{
  Same, Stored, Created, Got, Listed, Updated, Failures, IsWidgetStore,
}

module _ (lib : UuidLibrary) where
  open lib use {Uuid, World, now_v7}

  Same-widgets_of :
      (before after : Rows lib)
      → ((uuid : Uuid) → after uuid ≡ before uuid)
      → Same lib (widgets_of lib before) (widgets_of lib after)
  Same-widgets_of before after h id = ap (widget_of lib) (h id.as_uuid)

  abbrev model_of : Widget lib → Model lib
  model_of widget = record { id = widget.id.as_uuid; name = widget.name }

  id-of_as_uuid : (id other : WidgetId lib) → id.as_uuid ≡ other.as_uuid → id ≡ other
  unfolding from
  id-of_as_uuid id other e = ap (from lib) e

  Written-Stored :
      (before after : Rows lib) (widget : Widget lib) (model : Model lib)
      → Written lib before (to_active_model lib widget) model after
      → (to_domain lib model ≡ widget)
        × Stored lib (widgets_of lib before) widget (widgets_of lib after)
  unfolding to_active_model to_domain from
  Written-Stored before after widget model (e, stored, others) =
      let same : to_domain lib model ≡ widget = ap (to_domain lib) e in
      (
        same,
        (
          ap (widget_of lib) stored ∙ ap some same,
          λ id other.
              ap (widget_of lib) (others id.as_uuid (λ h. other (id-of_as_uuid id widget.id h))),
        ),
      )

  Inserted-from :
      (before start after : Rows lib) (active : ActiveModel lib) (r : Result (Model lib) DbErr)
      → ((uuid : Uuid) → before uuid ≡ start uuid)
      → Inserted lib before active r after
      → Inserted lib start active r after
  Inserted-from before start after active (ok model) h (free, (e, stored, others)) =
      (sym (h active.id) ∙ free, (e, stored, λ uuid n. others uuid n ∙ h uuid))
  Inserted-from before start after active (err e) h same = λ uuid. same uuid ∙ h uuid

  module _ (orm : SeaOrm lib) where
    -- A write failed, with an error that is not the one of a missing row, and this is its text.
    abbrev WriteFailed : Result (Model lib) DbErr → String → Type 0
    WriteFailed r cause =
        (e : DbErr) × (r ≡ err e) × (e ≢ record_not_updated) × (cause ≡ orm.message e)

    -- A query failed, and this is the text of its error.
    abbrev QueryFailed : {A : Type 0} → Result A DbErr → String → Type 0
    QueryFailed r cause = (e : DbErr) × (r ≡ err e) × (cause ≡ orm.message e)

    -- The failures of the four operations: those of their queries. `create` takes its identifier from
    -- the clock before it inserts.
    abbrev pub database_failures : Failures lib
    database_failures = record {
      create_fails = λ name w.
          QueryFailed
            (orm.insert (to_active_model lib record { id = (new lib w).0; name = name })
              (new lib w).1).0;
      get_fails = λ id w. QueryFailed (orm.find_by_id id.as_uuid w);
      list_fails = λ w. QueryFailed (orm.find w);
      update_fails = λ widget w. WriteFailed (orm.update (to_active_model lib widget) w).0;
    }

    Inserted-Created :
        (before after : Rows lib) (widget : Widget lib) (r : Result (Model lib) DbErr)
        → Inserted lib before (to_active_model lib widget) r after
        → Created lib
            (QueryFailed r)
            (widgets_of lib before)
            widget.name
            (domain_result lib (internal_error lib orm) r)
            (widgets_of lib after)
    unfolding domain_result to_active_model
    Inserted-Created before after widget (ok model) (free, written) =
        let (same, stored) = Written-Stored before after widget model written in
        subst
          (λ x.
            Created lib (QueryFailed (ok model)) (widgets_of lib before) widget.name (ok x)
              (widgets_of lib after))
          (sym same) (refl, ap (widget_of lib) free, stored)
    Inserted-Created before after widget (err e) same =
        ((e, refl, refl), Same-widgets_of before after same)

    UpdatedRow-Updated :
        (before after : Rows lib) (widget : Widget lib) (r : Result (Model lib) DbErr)
        → UpdatedRow lib before (to_active_model lib widget) r after
        → Updated lib
            (WriteFailed r)
            (widgets_of lib before)
            widget
            (domain_result lib (update_error lib orm) r)
            (widgets_of lib after)
    unfolding domain_result to_active_model update_error
    UpdatedRow-Updated before after widget (ok model) ((old, there), written) =
        let (same, stored) = Written-Stored before after widget model written in
        (same, (to_domain lib old, ap (widget_of lib) there), stored)
    UpdatedRow-Updated before after widget (err record_not_updated) (missing, same) =
        (ap (widget_of lib) missing, Same-widgets_of before after same)
    UpdatedRow-Updated before after widget (err (other_db_err text)) same =
        ((other_db_err text, refl, (λ e. cc), refl), Same-widgets_of before after same)

  module _ (orm : SeaOrm lib) (rows : World → Rows lib) (table : IsTable lib orm rows) where
    create-Created :
        (name : String) (w : World)
        → Created lib
            ((database_failures orm).create_fails name w)
            (widgets_of lib (rows w))
            name
            (create lib orm name w).0
            (widgets_of lib (rows (create lib orm name w).1))
    unfolding create new to_active_model
    create-Created name w =
        let widget : Widget lib = record { id = (new lib w).0; name = name } in
        Inserted-Created orm (rows w) _ widget
          (orm.insert (to_active_model lib widget) (new lib w).1).0
          (Inserted-from (rows (new lib w).1) (rows w) _ (to_active_model lib widget) _
            (table.clock_law w) (table.insert_law (to_active_model lib widget) (new lib w).1))

    get-Got :
        (id : WidgetId lib) (w : World)
        → Got lib
            ((database_failures orm).get_fails id w)
            (widgets_of lib (rows w))
            id
            (get lib orm id w)
    unfolding get one_widget
    get-Got id w = elim (Result-cases (orm.find_by_id id.as_uuid w)) [
      | inr (e, f) ↦ rw (f, get) (e, refl, refl)
      | inl (located, f) ↦ elim (Option-cases located) [
        | inl missing ↦
            rw (f, get)
              (rw (missing, one_widget)
                (ap (widget_of lib) (sym (table.find_by_id_law id.as_uuid w located f) ∙ missing)))
        | inr (model, there) ↦
            let at : rows w id.as_uuid ≡ some model =
              sym (table.find_by_id_law id.as_uuid w located f) ∙ there in
            rw (f, get)
              (rw (there, one_widget)
                (ap (widget_of lib) at, id-of_as_uuid _ id (table.key_law w id.as_uuid model at)))
      ]
    ]

    listed :
        {w : World} (models : List (Model lib))
        → orm.find w ≡ ok models
        → (widget : Widget lib) → In widget (map (to_domain lib) models)
        → widgets_of lib (rows w) widget.id ≡ some widget
    unfolding to_domain from
    listed {w = w} models f widget i =
        let (model, j, e) = (In-map (to_domain lib) widget models).0 i in
        subst (λ x. widgets_of lib (rows w) x.id ≡ some x) e
          (ap (widget_of lib) ((table.find_law w models f model).0 j))

    unlisted :
        {w : World} (models : List (Model lib))
        → orm.find w ≡ ok models
        → (widget : Widget lib) → widgets_of lib (rows w) widget.id ≡ some widget
        → In widget (map (to_domain lib) models)
    unlisted {w = w} models f widget h = elim (Option-cases (rows w widget.id.as_uuid)) [
      | inl missing ↦ absurd (none-ne-some (sym (ap (widget_of lib) missing) ∙ h))
      | inr (model, there) ↦
          let key = table.key_law w widget.id.as_uuid model there in
          (In-map (to_domain lib) widget models).1 (
            model,
            (table.find_law w models f model).1 (ap (rows w) key ∙ there),
            some_injective (sym (ap (widget_of lib) there) ∙ h),
          )
    ]

    list-Listed :
        (w : World)
        → Listed lib
            ((database_failures orm).list_fails w)
            (widgets_of lib (rows w))
            (list lib orm w)
    unfolding list
    list-Listed w = elim (Result-cases (orm.find w)) [
      | inr (e, f) ↦ rw (f, list) (e, refl, refl)
      | inl (models, f) ↦
          rw (f, list) (λ widget. (listed models f widget, unlisted models f widget))
    ]

    update-Updated :
        (widget : Widget lib) (w : World)
        → Updated lib
            ((database_failures orm).update_fails widget w)
            (widgets_of lib (rows w))
            widget
            (update lib orm widget w).0
            (widgets_of lib (rows (update lib orm widget w).1))
    unfolding update
    update-Updated widget w =
        UpdatedRow-Updated orm (rows w) _ widget (orm.update (to_active_model lib widget) w).0
          (table.update_law (to_active_model lib widget) w)

    -- Over a table that holds what was written to it and that a failed write leaves as it was, the service
    -- is a map of widgets: `create` stores its widget under a new identifier, `get` gives what is stored,
    -- `list` all of it, and `update` changes a widget that is there and no other. What is missing, and only
    -- that, is `NotFound`; the only other error is `Internal`, with the text of a database error that the
    -- operation's query returned, and then the map is the same.
    pub widget_service_impl-IsWidgetStore :
        IsWidgetStore lib
          (λ w. widgets_of lib (rows w))
          (database_failures orm)
          (widget_service_impl lib (seaorm_widget_repository lib orm))
    unfolding widget_service_impl seaorm_widget_repository
    widget_service_impl-IsWidgetStore = record {
      create_law = create-Created;
      get_law = get-Got;
      list_law = list-Listed;
      update_law = update-Updated;
    }
