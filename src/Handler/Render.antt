-- ===== src/Handler/Render.antt =====
-- src/handler/render.rs: `HandlerCore::render`; src/integration.rs: `ExtendResponse::from_app`; and the
-- closure around a boxed server function, of src/handler/core.rs. The application, its server functions
-- and its context are parameters, in the record `App`.
pub mod Finished
pub mod Located
mod Tests
use leptos_wasi.Prelude.{
  ℕ, Bool, true, false, not, ◌&&◌, List, [], ◌∷◌, Option, none, some, if◌then◌else◌, length, ltb,
}
use leptos_wasi.Std.Str.{Bytes}
use leptos_wasi.Std.Codes.{codes}
use leptos_wasi.Http
use leptos_wasi.Http.{Http, Body, sync, async, Response, content_length, referer, insert_if_absent}
use leptos_wasi.Response.{ResponseParts, default, extend_response, set_default_content_type}
use leptos_wasi.Handler.Plain.{plain_response, set_default_nosniff}
use leptos_wasi.Handler.Policy.{body_too_large}
use leptos_wasi.Handler.Wasip2.{policy_response}
use leptos_wasi.Handler.Redirect.{mirror_referrer_spelling, apply_server_fn_redirect}
use leptos_wasi.Handler.Core.{
  Method, is_head, Selection, unclaimed, not_found, preset, server_fn, HandlerCore,
}

-- `SsrMode`.
pub data SsrMode : Type 0 where
  static_ async_ in_order partially_blocked out_of_order : SsrMode

-- The stream that `render_mode` builds: collected into one chunk or not, in order or not, with
-- branch markers or not.
pub record RenderMode : Type 0 where
  pub collected : Bool
  pub ordered : Bool
  pub branching : Bool

-- `render_mode`, with `supports_out_of_order` given; `feature` is `cfg!(feature = "islands-router")`.
unfoldable pub render_mode : Bool → SsrMode → Bool → RenderMode
render_mode feature async_ supports = record {
  collected = true;
  ordered = true;
  branching = feature;
}
render_mode feature static_ supports = record {
  collected = true;
  ordered = true;
  branching = feature;
}
render_mode feature in_order supports = record {
  collected = false;
  ordered = true;
  branching = feature;
}
render_mode feature partially_blocked supports = record {
  collected = false;
  ordered = not supports;
  branching = feature;
}
render_mode feature out_of_order supports = record {
  collected = false;
  ordered = not supports;
  branching = feature;
}

-- The request that the application sees.
pub record Request (H : Type 0) : Type 0 where
  pub method : Method
  pub path : Bytes
  pub headers : H
  pub body : Bytes

-- `context` is the additional context, which may set response parts; `run_server_fn` runs a boxed
-- server function, and `stream` renders the application, each after its context. `islands` tells the
-- application of an islands navigation.
pub record App (F H Stream Router : Type 0) : Type 0 where
  pub best_match : Router → Bytes → Option SsrMode
  pub context : Request H → ResponseParts H → ResponseParts H
  pub run_server_fn : F → Request H → ResponseParts H → Response H Stream × ResponseParts H
  pub stream : RenderMode → Bool → Request H → ResponseParts H → Stream × ResponseParts H

module _ {H Value : Type 0} (types : Http H Value) where
  -- The `Content-Length` of a body that is at hand.
  unfoldable pub length_header : {Stream : Type 0} → Body Stream → H → H
  length_header (sync bytes) headers =
      insert_if_absent types content_length (types.number (length bytes)) headers
  length_header (async stream) headers = headers

  -- `response.unwrap_or_else(…)`.
  unfoldable pub or_not_found : {Stream : Type 0} → Option (Response H Stream) → Response H Stream
  or_not_found none = plain_response types 404 (codes "404 not found")
  or_not_found (some response) = response

  -- From the defaults to the end of `render`.
  unfoldable pub finish_response : {Stream : Type 0} → Bool → Response H Stream → Response H Stream
  finish_response head_only response =
      let safe = set_default_nosniff types response in
      record {
        status = safe.status;
        headers = length_header safe.body safe.headers;
        body = (if head_only then sync [] else safe.body);
      }

  -- `response.map(|mut response| { response.extend_response(&res_opts); response })`.
  unfoldable pub extend_some :
      {Stream : Type 0} → Option (Response H Stream) × ResponseParts H → Option (Response H Stream)
  extend_some (none, opts) = none
  extend_some (some response, opts) = some (extend_response types opts response).1

  -- `from_stream`, `extend_response` and `set_default_content_type` at the end of `from_app`.
  unfoldable pub from_app :
      {Stream : Type 0} → Stream × ResponseParts H → Response H Stream × ResponseParts H
  from_app (stream, opts) =
      let extended =
        extend_response types opts
          (record { status = 200; headers = types.empty; body = async stream }) in
      (set_default_content_type types (codes "text/html; charset=utf-8") extended.1, extended.0)

module _ {F H Value Stream Router : Type 0} (types : Http H Value)
    (app : App F H Stream Router) where
  -- The closure that `with_server_fn` stores: a body over the limit is refused, any other request is
  -- for the boxed service.
  unfoldable pub run_limited :
      ℕ → F → Request H → ResponseParts H → Response H Stream × ResponseParts H
  run_limited limit f request parts =
      if ltb limit (length request.body)
      then (
        plain_response types (policy_response (body_too_large limit)).code
            (policy_response (body_too_large limit)).message,
        parts,
      )
      else app.run_server_fn f request parts

module _ {F H Value Stream Router : Type 0} (types : Http H Value) (app : App F H Stream Router)
    (accepts_html : H → Bool) (feature : Bool) where
  -- The arm `Selection::ServerFn`.
  unfoldable pub render_server_fn : ℕ → F → Request H → Response H Stream × ResponseParts H
  render_server_fn limit f request =
      let mirrored = mirror_referrer_spelling types request.headers in
      let answered =
        run_limited types app limit f (record request { headers = mirrored })
          (app.context request (default types)) in
      (
        apply_server_fn_redirect types answered.0 (accepts_html mirrored)
            (Http.get types referer mirrored),
        answered.1,
      )

  -- The arm `Selection::Unclaimed`.
  unfoldable pub render_route :
      Bool → Option SsrMode → Request H → Option (Response H Stream) × ResponseParts H
  render_route islands none request = (none, default types)
  render_route islands (some mode) request =
      let rendered = from_app types (
        app.stream (render_mode feature mode (not islands)) islands request
          (app.context request (default types))) in
      (some rendered.0, rendered.1)

  -- The match on the selection.
  unfoldable pub select :
      Bool
      → Option SsrMode
      → Request H
      → Selection F (Response H Stream)
      → Option (Response H Stream) × ResponseParts H
  select islands mode request not_found = (none, default types)
  select islands mode request (preset response class) = (some response, default types)
  select islands mode request (server_fn limit f) =
      let rendered = render_server_fn limit f request in (some rendered.0, rendered.1)
  select islands mode request unclaimed = render_route islands mode request

  -- `HandlerCore::render`; `islands` is `is_islands_router_navigation` of the request.
  unfoldable pub render :
      Bool → Bytes → HandlerCore F (Response H Stream) H Router → Response H Stream
  render islands body core =
      let request : Request H = record {
        method = core.method;
        path = core.path;
        headers = core.headers;
        body = body;
      } in
      finish_response types (is_head core.method) (
        or_not_found types (
          extend_some types
            (select islands (app.best_match core.ssr_router core.path) request core.selection)))
