-- ===== src/Handler/Render/Located.antt =====
-- Where a rendered server function sends the client.
use leptos_wasi.Prelude.{
  ℕ, ◌≡◌, refl, sym, ap, ◌∙◌, subst, Bool, false, List, [], All, inl, inr, ◌⊎◌,
}
use leptos_wasi.Std.Str.{Bytes, bytes_eq}
use leptos_wasi.Http
use leptos_wasi.Http.{Http, IsLawful, Body, Response, location, referer, is_redirection}
use leptos_wasi.Http.Laws.{or_else, or_else-nil}
use leptos_wasi.Response.{ResponseParts, default, is_list_valued, extend_response}
use leptos_wasi.Response.Merged.{merged, extend_response-get_all}
use leptos_wasi.Handler.Redirect.{mirror_referrer_spelling, apply_server_fn_redirect}
use leptos_wasi.Handler.Redirect.SameOrigin.{
  HasLocal, LeavesLocal, apply_server_fn_redirect-LeavesLocal,
}
use leptos_wasi.Handler.Core.{is_head, server_fn, HandlerCore}
use leptos_wasi.Handler.Render.{
  Request, App, finish_response, or_not_found, extend_some, run_limited, render_server_fn, select,
  render,
}
use leptos_wasi.Handler.Render.Finished.{defaults, finish_response-get_all}

-- The request of a handler.
abbrev pub request_of : {F R H Router : Type 0} → Bytes → HandlerCore F R H Router → Request H
request_of body core = record {
  method = core.method;
  path = core.path;
  headers = core.headers;
  body = body;
}

-- What the server function of a request answers, or the refusal of a body over its limit, and the
-- response parts that are left.
abbrev pub answer :
    {F H Value Stream Router : Type 0}
    → Http H Value
    → App F H Stream Router
    → ℕ
    → F
    → Request H
    → Response H Stream × ResponseParts H
answer types app limit f request =
    run_limited types app limit f
      (record request { headers = mirror_referrer_spelling types request.headers })
      (app.context request (default types))

module _ {F H Value Stream Router : Type 0} (types : Http H Value) (laws : IsLawful types)
    (app : App F H Stream Router) (accepts_html : H → Bool) (feature : Bool) where
  no_default : (body : Body Stream) → defaults types location body ≡ []
  unfolding bytes_eq
  no_default body = refl

  merged-location :
      (old new : List Value) → new ≡ [] → merged (is_list_valued location) old new ≡ old
  unfolding merged is_list_valued bytes_eq
  merged-location old new h = rw h refl

  locations-finished :
      (head_only : Bool) (parts : ResponseParts H) (response : Response H Stream)
      → types.get_all location parts.headers ≡ []
      → types.get_all location
          (finish_response types head_only (extend_response types parts response).1).headers
        ≡ types.get_all location response.headers
  locations-finished head_only parts response h =
      (finish_response-get_all types laws head_only location
        (extend_response types parts response).1).0
      ∙ ap (or_else (types.get_all location (extend_response types parts response).1.headers))
          (no_default (extend_response types parts response).1.body)
      ∙ or_else-nil (types.get_all location (extend_response types parts response).1.headers)
      ∙ extend_response-get_all types laws location parts response
      ∙ merged-location (types.get_all location response.headers)
          (types.get_all location parts.headers) h

  -- What the redirect policy left behind, read off the locations of the final response.
  located-of_LeavesLocal :
      (before after : Response H Stream) (locations : List Value)
      → LeavesLocal types laws before after
      → locations ≡ types.get_all location after.headers
      → All (HasLocal types laws) locations
        ⊎ ((is_redirection before.status ≡ false)
            × (locations ≡ types.get_all location before.headers))
  unfolding LeavesLocal
  located-of_LeavesLocal before after locations (inl local) e =
      inl (subst (All (HasLocal types laws)) (sym e) local)
  located-of_LeavesLocal before after locations (inr (k, same)) e =
      inr (k, e ∙ ap (λ r. types.get_all location r.headers) same)

  -- A request that a server function has claimed, where the application sets no `Location` itself:
  -- every `Location` of the response that is sent is a path on the same origin, or the answer of the
  -- server function, or the refusal of a body over its limit, was no redirection and its locations are
  -- sent as they are.
  pub render-locations :
      (islands : Bool) (body : Bytes) (core : HandlerCore F (Response H Stream) H Router)
      (limit : ℕ) (f : F)
      → core.selection ≡ server_fn limit f
      → types.get_all location (answer types app limit f (request_of body core)).1.headers ≡ []
      → All
          (HasLocal types laws)
          (types.get_all location (render types app accepts_html feature islands body core).headers)
        ⊎ ((is_redirection (answer types app limit f (request_of body core)).0.status ≡ false)
            × (types.get_all location
                  (render types app accepts_html feature islands body core).headers
                ≡ types.get_all location
                    (answer types app limit f (request_of body core)).0.headers))
  unfolding render
  render-locations islands body core limit f claimed quiet = rw claimed (
      unfold select in
      (unfold extend_some in
        (unfold or_not_found in
          (unfold render_server_fn in
            located-of_LeavesLocal (answer types app limit f (request_of body core)).0
              (apply_server_fn_redirect types (answer types app limit f (request_of body core)).0
                (accepts_html (mirror_referrer_spelling types core.headers))
                (Http.get types referer (mirror_referrer_spelling types core.headers)))
              _
              (apply_server_fn_redirect-LeavesLocal types laws
                (answer types app limit f (request_of body core)).0
                (accepts_html (mirror_referrer_spelling types core.headers))
                (Http.get types referer (mirror_referrer_spelling types core.headers)))
              (locations-finished (is_head core.method)
                (answer types app limit f (request_of body core)).1 _ quiet)))))
