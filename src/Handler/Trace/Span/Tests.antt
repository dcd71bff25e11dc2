-- ===== src/Handler/Trace/Span/Tests.antt =====
-- The span of a page and of a request whose identifier is not printable.
use leptos_wasi.Prelude.{◌≡◌, refl, [], ◌∷◌, Option, none, some}
use leptos_wasi.Std.Str.{Bytes, bytes_eq}
use leptos_wasi.Std.Codes.{codes}
use leptos_wasi.Http.{values_of}
use leptos_wasi.Http.Listed.{Headers, listed}
use leptos_wasi.Handler.Policy
use leptos_wasi.Handler.Core.{get, new, HandlerCore}
use leptos_wasi.Handler.Render.{SsrMode, in_order}
use leptos_wasi.Handler.Trace.Span.{
  ssr_mode_name, route_class, traced_mode, acceptable_id, x_request_id, request_id, request_span,
}

abbrev core : Bytes → HandlerCore (Unit {0}) (Unit {0}) Headers (Option SsrMode)
core id = new (some in_order) get (codes "/a") ((x_request_id, id) ∷ []) Policy.default

run : Unit {0}
unfolding request_span request_id acceptable_id traced_mode route_class ssr_mode_name new values_of
    bytes_eq
run = tt

page : request_span listed (λ router path. router) none [] (core (codes "r 1")) ≡ record {
  method = get;
  path = codes "/a";
  class = codes "ssr";
  mode = codes "in_order";
  id = codes "r 1";
  request_bytes = 0;
}
unfolding run
page = refl

not_printable : request_id listed (core (10 ∷ [])).headers ≡ []
unfolding run
not_printable = refl
