-- ===== src/Handler/Trace/Span.antt =====
-- src/handler/trace.rs: the fields of a request's span, and the class of a rejection.
mod Tests
use leptos_wasi.Prelude.{
  ℕ, Bool, true, false, ◌&&◌, ◌||◌, List, [], ◌∷◌, Option, none, some, if◌then◌else◌, leb, ◌==◌,
  all, in_range, length,
}
use leptos_wasi.Std.Str.{Bytes, bytes_eq, is_some}
use leptos_wasi.Std.Codes.{codes}
use leptos_wasi.Http
use leptos_wasi.Http.{HeaderName, Http}
use leptos_wasi.Handler.Policy.{
  RequestPolicyError, body_too_large, body_read_timeout, invalid_content_length,
  conflicting_content_length,
}
use leptos_wasi.Handler.Core.{
  Method, Selection, unclaimed, not_found, preset, server_fn, HandlerCore,
}
use leptos_wasi.Handler.Render.{SsrMode, static_, async_, in_order, partially_blocked, out_of_order}

unfoldable pub ssr_mode_name : SsrMode → Bytes
ssr_mode_name async_ = codes "async"
ssr_mode_name in_order = codes "in_order"
ssr_mode_name partially_blocked = codes "partially_blocked"
ssr_mode_name out_of_order = codes "out_of_order"
ssr_mode_name static_ = codes "static"

-- The match on the selection; `best_match` is the mode of the route that the path finds.
unfoldable pub route_class : {F R : Type 0} → Option SsrMode → Selection F R → Bytes
route_class best_match (server_fn limit f) = codes "server_fn"
route_class best_match (preset response class) = class
route_class best_match not_found = codes "not_found"
route_class best_match unclaimed = if is_some best_match then codes "ssr" else codes "not_found"

abbrev pub name_or_none : Option SsrMode → Bytes
name_or_none none = codes "none"
name_or_none (some mode) = ssr_mode_name mode

unfoldable pub traced_mode : Option SsrMode → Bytes → Bytes
traced_mode best_match class =
    if bytes_eq class (codes "ssr") then name_or_none best_match else codes "none"

-- `is_ascii_graphic`, and the blank.
abbrev pub is_printable : ℕ → Bool
is_printable byte = in_range 33 126 byte || byte == b' '

unfoldable pub acceptable_id : Option Bytes → Bytes
acceptable_id none = []
acceptable_id (some value) = if leb (length value) 128 && all is_printable value then value else []

abbrev pub x_request_id : HeaderName
x_request_id = codes "x-request-id"

abbrev pub text_of : {H Value : Type 0} → Http H Value → Option Value → Option Bytes
text_of types none = none
text_of types (some value) = types.to_str value

unfoldable pub request_id : {H Value : Type 0} → Http H Value → H → Bytes
request_id types headers = acceptable_id (text_of types (Http.get types x_request_id headers))

-- The span of `RequestTrace::new`.
pub record Span : Type 0 where
  pub method : Method
  pub path : Bytes
  pub class : Bytes
  pub mode : Bytes
  pub id : Bytes
  pub request_bytes : ℕ

abbrev pub path_or : Bytes → Option Bytes → Bytes
path_or path none = path
path_or path (some trace_path) = trace_path

-- `RequestTrace::new`: the span, where `trace_path` is the normalized path of an asset, if there is one.
unfoldable pub request_span :
    {F R H Value Router : Type 0}
    → Http H Value
    → (Router → Bytes → Option SsrMode)
    → Option Bytes
    → Bytes
    → HandlerCore F R H Router
    → Span
request_span types best_match trace_path body core =
    let path = path_or core.path trace_path in
    let matched = best_match core.ssr_router path in
    let class = route_class matched core.selection in
    record {
      method = core.method;
      path = path;
      class = class;
      mode = traced_mode matched class;
      id = request_id types core.headers;
      request_bytes = length body;
    }

-- The class of `trace_policy_rejection`.
unfoldable pub policy_class : RequestPolicyError → Bytes
policy_class (body_too_large limit) = codes "body_too_large"
policy_class (body_read_timeout nanoseconds) = codes "body_read_timeout"
policy_class invalid_content_length = codes "invalid_content_length"
policy_class conflicting_content_length = codes "conflicting_content_length"
