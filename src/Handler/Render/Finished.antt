-- ===== src/Handler/Render/Finished.antt =====
-- The defaults that every response gets, and responses to `HEAD`.
use leptos_wasi.Prelude.{
  ◌≡◌, refl, sym, ap, ◌∙◌, Bool, List, [], ◌∷◌, Option, if◌then◌else◌, length, Bool-cases, inl, inr,
}
use leptos_wasi.Std.Str.{Bytes, bytes_eq}
use leptos_wasi.Std.Codes.{codes}
use leptos_wasi.Http.{
  HeaderName, Http, IsLawful, Body, sync, async, Response, content_length, x_content_type_options,
}
use leptos_wasi.Http.Laws.{or_else, or_else-nil, or_else_assoc, get_all-insert_if_absent_any}
use leptos_wasi.Handler.Plain.{set_default_nosniff}
use leptos_wasi.Handler.Core.{Method, get, head, Selection, not_found, preset, HandlerCore}
use leptos_wasi.Handler.Render.{
  SsrMode, Request, App, length_header, finish_response, select, render,
}

module _ {H Value : Type 0} (types : Http H Value) where
  -- The length of a body that is at hand.
  abbrev pub length_values : {Stream : Type 0} → Body Stream → List Value
  length_values (sync bytes) = types.number (length bytes) ∷ []
  length_values (async stream) = []

  -- The values that a header has by default.
  abbrev pub defaults : {Stream : Type 0} → HeaderName → Body Stream → List Value
  defaults name body =
      or_else
        (if bytes_eq name x_content_type_options then types.text (codes "nosniff") ∷ [] else [])
        (if bytes_eq name content_length then length_values body else [])

  module _ (laws : IsLawful types) where
    get_all-length_header :
        {Stream : Type 0} (name : HeaderName) (body : Body Stream) (headers : H)
        → types.get_all name (length_header types body headers)
          ≡ or_else
              (types.get_all name headers)
              (if bytes_eq name content_length then length_values body else [])
    unfolding length_header
    get_all-length_header name (sync bytes) headers =
        get_all-insert_if_absent_any types laws name content_length _ headers
    get_all-length_header name (async stream) headers =
        elim (Bool-cases (bytes_eq name content_length)) [
          | inl e ↦ rw e (sym (or_else-nil (types.get_all name headers)))
          | inr e ↦ rw e (sym (or_else-nil (types.get_all name headers)))
        ]

    -- Of each header, a finished response has the values that it had before, or its defaults if it had
    -- none: `nosniff`, and the length of a body that is at hand; also for `HEAD`, whose body is empty.
    pub finish_response-get_all :
        {Stream : Type 0} (head_only : Bool) (name : HeaderName) (response : Response H Stream)
        → (types.get_all name (finish_response types head_only response).headers
            ≡ or_else (types.get_all name response.headers) (defaults name response.body))
          × ((finish_response types head_only response).status ≡ response.status)
          × ((finish_response types head_only response).body
              ≡ (if head_only then sync [] else response.body))
    unfolding finish_response set_default_nosniff
    finish_response-get_all head_only name response = (
      get_all-length_header name response.body _
          ∙ ap
              (λ x.
                or_else x
                  (if bytes_eq name content_length then length_values response.body else []))
              (get_all-insert_if_absent_any types laws name x_content_type_options _
                response.headers)
          ∙ or_else_assoc (types.get_all name response.headers) _ _,
      refl,
      refl,
    )

module _ {F H Value Stream Router : Type 0} (types : Http H Value) (app : App F H Stream Router)
    (accepts_html : H → Bool) (feature : Bool) where
  -- The request is claimed by a ready-made response, or is known to find nothing.
  pub data IsPreset : Selection F (Response H Stream) → Type 0 where
    ready : (response : Response H Stream) (class : Bytes) → IsPreset (preset response class)
    missing : IsPreset not_found

  abbrev pub as_method :
      Method
      → HandlerCore F (Response H Stream) H Router
      → HandlerCore F (Response H Stream) H Router
  as_method method core = record core { method = method }

  select-IsPreset :
      (islands : Bool) (selection : Selection F (Response H Stream))
      → IsPreset selection
      → (mode : Option SsrMode) (r r' : Request H)
      → select types app accepts_html feature islands mode r selection
        ≡ select types app accepts_html feature islands mode r' selection
  unfolding select
  select-IsPreset islands _ (ready response class) mode r r' = refl
  select-IsPreset islands _ missing mode r r' = refl

  -- A preset response to `HEAD` is that to `GET` without its body: same status and same headers, the
  -- length among them.
  pub render_head :
      (islands : Bool) (body : Bytes) (core : HandlerCore F (Response H Stream) H Router)
      → IsPreset core.selection
      → render types app accepts_html feature islands body (as_method head core)
        ≡ record (render types app accepts_html feature islands body (as_method get core)) {
          body = sync [];
        }
  unfolding render
  render_head islands body core h =
      rw
        (select-IsPreset islands core.selection h (app.best_match core.ssr_router core.path)
          (record { method = head; path = core.path; headers = core.headers; body = body })
          (record { method = get; path = core.path; headers = core.headers; body = body }))
        (unfold finish_response in refl)
