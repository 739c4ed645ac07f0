-- ===== src/Example/Rest/Lifecycle.antt =====
-- Requests that follow one another: what a client gets back of what it stored.
use modular_rust_platform.Base.{
  String, ◌≡◌, ◌⊎◌, refl, sym, ap, ◌∙◌, subst, inl, inr, some, Result, ok, err, Result-cases,
  ok_injective, err-ne-ok, some_injective, none-ne-some,
}
use modular_rust_platform.Errors.Service.{
  ServiceError, not_found, invalid_input, conflict, unauthorized, forbidden, internal,
}
use modular_rust_platform.Errors.Api.{ApiError, from_service_error}
use modular_rust_platform.Example.Domain.{
  UuidLibrary, WidgetId, from_str, display, Widget, WidgetService,
}
use modular_rust_platform.Example.Widgets.{
  WidgetMap, Created, Got, Updated, Failures, IsWidgetStore,
}
use modular_rust_platform.Example.Rest.{
  WidgetResponse, WidgetRequest, to_response, respond, create_widget_handler, get_widget_handler,
  update_widget_handler,
}

module _ (lib : UuidLibrary) (service : WidgetService lib) (view : lib.World → WidgetMap lib)
    (failures : Failures lib) (store : IsWidgetStore lib view failures service) where
  open lib use {World}

  -- The answer to a client where the database fails.
  abbrev pub Answers : {A : Type 0} → (String → Type 0) → Result A ApiError → Type 0
  Answers Fails r = (cause : String) × Fails cause × (r ≡ err (from_service_error (internal cause)))

  -- The answer where the database fails to get the widget that the text identifies.
  abbrev pub GetFails : String → World → Result WidgetResponse ApiError → Type 0
  GetFails text w r =
      (id : WidgetId lib) × (from_str lib text ≡ ok id) × Answers (failures.get_fails id w) r

  -- `get` of what is there gives it, or fails for the database.
  Got-some :
      (Fails : String → Type 0) (m : WidgetMap lib) (id : WidgetId lib) (widget : Widget lib)
      (r : Result (Widget lib) ServiceError)
      → Got lib Fails m id r
      → m id ≡ some widget
      → (respond lib r ≡ ok (to_response lib widget)) ⊎ Answers Fails (respond lib r)
  unfolding respond
  Got-some Fails m id widget (ok other) (there, e) h =
      inl (ap (λ x. ok (to_response lib x)) (some_injective (sym there ∙ h)))
  Got-some Fails m id widget (err not_found) missing h = absurd (none-ne-some (sym missing ∙ h))
  Got-some Fails m id widget (err (internal cause)) g h = inr (cause, g, refl)
  Got-some Fails m id widget (err (invalid_input msg)) g h = absurd g
  Got-some Fails m id widget (err (conflict msg)) g h = absurd g
  Got-some Fails m id widget (err unauthorized) g h = absurd g
  Got-some Fails m id widget (err forbidden) g h = absurd g

  get_stored :
      (text : String) (widget : Widget lib) (w : World)
      → from_str lib text ≡ ok widget.id
      → view w widget.id ≡ some widget
      → (get_widget_handler lib service text w ≡ ok (to_response lib widget))
        ⊎ GetFails text w (get_widget_handler lib service text w)
  unfolding get_widget_handler
  get_stored text widget w parsed h =
      rw (parsed, get_widget_handler)
        (elim (Got-some (failures.get_fails widget.id w) (view w) widget.id widget
          (service.get widget.id w) (store.get_law widget.id w) h) [
            | inl e ↦ inl e
            | inr answers ↦ inr (widget.id, refl, answers)
          ])

  respond-Created :
      (Fails : String → Type 0) (m after : WidgetMap lib) (name : String)
      (r : Result (Widget lib) ServiceError) (response : WidgetResponse)
      → Created lib Fails m name r after
      → respond lib r ≡ ok response
      → (widget : Widget lib) × (to_response lib widget ≡ response)
        × (after widget.id ≡ some widget)
        × (widget.name ≡ name)
  unfolding respond
  respond-Created Fails m after name (ok widget) response (e, free, stored) h =
      (widget, ok_injective h, stored.0, e)
  respond-Created Fails m after name (err e) response c h = absurd (err-ne-ok h)

  from_str-display :
      ((uuid : lib.Uuid) → lib.parse_str (lib.to_string uuid) ≡ ok uuid)
      → (id : WidgetId lib) → from_str lib (display lib id) ≡ ok id
  unfolding from_str display
  from_str-display reads id = rw (reads id.as_uuid, from_str) refl

  -- Where a UUID is read back from its text, a created widget has the name of the request and is found
  -- under the identifier of the response, with the same response, unless the database fails to get it: the
  -- answer is then that failure.
  pub create_widget_handler-get :
      ((uuid : lib.Uuid) → lib.parse_str (lib.to_string uuid) ≡ ok uuid)
      → (req : WidgetRequest) (w : World) (response : WidgetResponse)
      → (create_widget_handler lib service req w).0 ≡ ok response
      → let after = (create_widget_handler lib service req w).1 in
        (response.name ≡ req.name)
        × ((get_widget_handler lib service response.id after ≡ ok response)
            ⊎ GetFails response.id after (get_widget_handler lib service response.id after))
  unfolding create_widget_handler to_response
  create_widget_handler-get reads req w response e =
      let after = (service.create req.name w).1 in
      let (widget, same, there, named) =
        respond-Created (failures.create_fails req.name w) (view w) (view after) req.name _ response
          (store.create_law req.name w) e in
      subst
        (λ x.
          (x.name ≡ req.name)
          × ((get_widget_handler lib service x.id after ≡ ok x)
              ⊎ GetFails x.id after (get_widget_handler lib service x.id after)))
        same
        (
          named,
          get_stored (to_response lib widget).id widget after (from_str-display reads widget.id)
              there,
        )

  respond-Updated :
      (Fails : String → Type 0) (m after : WidgetMap lib) (widget : Widget lib)
      (r : Result (Widget lib) ServiceError) (response : WidgetResponse)
      → Updated lib Fails m widget r after
      → respond lib r ≡ ok response
      → (to_response lib widget ≡ response) × (after widget.id ≡ some widget)
  unfolding respond
  respond-Updated Fails m after widget (ok saved) response (same, old, stored) h =
      (ap (to_response lib) (sym same) ∙ ok_injective h, stored.0)
  respond-Updated Fails m after widget (err e) response u h = absurd (err-ne-ok h)

  update_widget_handler-parsed :
      (text : String) (req : WidgetRequest) (w : World) (id : WidgetId lib)
      → from_str lib text ≡ ok id
      → let updated = service.update record { id = id; name = req.name } w in
        update_widget_handler lib service text req w ≡ (respond lib updated.0, updated.1)
  unfolding update_widget_handler
  update_widget_handler-parsed text req w id f = rw (f, update_widget_handler) refl

  -- What an update answers is what a request behind it for the same widget gives, unless the database fails
  -- to get it: the answer is then that failure. The answered name is that of the request.
  pub update_widget_handler-get :
      (text : String) (req : WidgetRequest) (w : World) (response : WidgetResponse)
      → (update_widget_handler lib service text req w).0 ≡ ok response
      → let after = (update_widget_handler lib service text req w).1 in
        ((get_widget_handler lib service text after ≡ ok response)
          ⊎ GetFails text after (get_widget_handler lib service text after))
        × (response.name ≡ req.name)
  unfolding update_widget_handler to_response
  update_widget_handler-get text req w response e = elim (Result-cases (from_str lib text)) [
    | inr (bad, f) ↦ absurd (err-ne-ok (rw (f, update_widget_handler) at e))
    | inl (id, f) ↦
        let widget : Widget lib = record { id = id; name = req.name } in
        let after = (service.update widget w).1 in
        let (same, there) =
          respond-Updated (failures.update_fails widget w) (view w) (view after) widget _ response
            (store.update_law widget w) (rw (f, update_widget_handler) at e) in
        subst
          (λ later.
            ((get_widget_handler lib service text later ≡ ok response)
              ⊎ GetFails text later (get_widget_handler lib service text later))
            × (response.name ≡ req.name))
          (sym (ap (λ r. r.1) (update_widget_handler-parsed text req w id f)))
          (subst
            (λ x.
              ((get_widget_handler lib service text after ≡ ok x)
                ⊎ GetFails text after (get_widget_handler lib service text after))
              × (x.name ≡ req.name))
            same (get_stored text widget after f there, refl))
  ]
