-- ===== src/Handler/Render/Tests.antt =====
-- Rendering over plain texts: a server function that redirects off the origin, a page, and a preset.
use leptos_wasi.Prelude.{
  ◌≡◌, ◌⊎◌, refl, Bool, true, false, if◌then◌else◌, [], ◌∷◌, Option, some, All,
}
use leptos_wasi.Std.Str.{Bytes, bytes_eq, contains, strip_prefix}
use leptos_wasi.Std.Codes.{codes}
use leptos_wasi.Http.{
  Response, location, content_length, content_type, x_content_type_options, sync, async, named,
  values_of, insert_if_absent, is_redirection,
}
use leptos_wasi.Http.Laws.{or_else}
use leptos_wasi.Http.Listed.{Headers, listed, listed-IsLawful, remove, items}
use leptos_wasi.Response.{
  default, is_list_valued, override_status, extend_entries, extend_response,
  set_default_content_type, default_content_type,
}
use leptos_wasi.Handler.Policy
use leptos_wasi.Handler.Policy.{status}
use leptos_wasi.Handler.Wasip2.{policy_response, policy_message}
use leptos_wasi.Handler.Plain.{plain_response, set_default_nosniff}
use leptos_wasi.Handler.Redirect.{
  has_backslash, is_rooted, sanitize_path, sanitize_referrer, sanitized_or_root, promote,
  rewrite_location, set_location, apply_server_fn_redirect, mirror_referrer_spelling,
  mirror_alternate,
}
use leptos_wasi.Handler.Redirect.SameOrigin.{HasLocal}
use leptos_wasi.Handler.Core.{
  get, head, Selection, unclaimed, not_found, preset, server_fn, HandlerCore,
}
use leptos_wasi.Handler.Render.{
  SsrMode, out_of_order, RenderMode, render_mode, App, length_header, or_not_found, finish_response,
  extend_some, from_app, run_limited, render_server_fn, render_route, select, render,
}
use leptos_wasi.Handler.Render.Finished.{
  defaults, ready, as_method, finish_response-get_all, render_head,
}
use leptos_wasi.Handler.Render.Located.{answer, request_of, render-locations}

-- A stream is the mode that it is rendered in.
abbrev Page : Type 0
Page = Response Headers RenderMode

abbrev taken_over : Page
taken_over = record {
  status = 302;
  headers = (location, codes "https://evil.example.com/") ∷ [];
  body = sync [];
}

abbrev app : App (Unit {0}) Headers RenderMode (Option SsrMode)
app = record {
  best_match = λ router path. router;
  context = λ request parts. parts;
  run_server_fn = λ f request parts. (taken_over, parts);
  stream = λ mode islands request parts. (mode, parts);
}

abbrev core : Selection (Unit {0}) Page → HandlerCore (Unit {0}) Page Headers (Option SsrMode)
core selection = record {
  method = get;
  path = codes "/a";
  headers = [];
  selection = selection;
  ssr_router = some out_of_order;
  routes_registered = true;
  config = Policy.default;
}

abbrev rendered : Bool → HandlerCore (Unit {0}) Page Headers (Option SsrMode) → Page
rendered islands c = render listed app (λ headers. false) true islands [] c

abbrev nosniff : Bytes × Bytes
nosniff = (x_content_type_options, codes "nosniff")

run : Unit {0}
unfolding render select render_route render_server_fn run_limited policy_response policy_message
    status from_app extend_some or_not_found finish_response length_header render_mode
    extend_response extend_entries override_status is_list_valued default set_default_content_type
    default_content_type insert_if_absent named values_of remove items bytes_eq plain_response
    set_default_nosniff apply_server_fn_redirect promote rewrite_location set_location
    sanitized_or_root sanitize_referrer sanitize_path has_backslash is_rooted contains strip_prefix
    mirror_referrer_spelling mirror_alternate
run = tt

a_page : rendered false (core unclaimed) ≡ record {
  status = 200;
  headers = (content_type, codes "text/html; charset=utf-8") ∷ nosniff ∷ [];
  body = async (record { collected = false; ordered = false; branching = true });
}
unfolding run
a_page = refl

-- An islands navigation is answered in order.
islands_page :
    (rendered true (core unclaimed)).body
    ≡ async (record { collected = false; ordered = true; branching = true })
unfolding run
islands_page = refl

nothing_found : rendered false (core not_found) ≡ record {
  status = 404;
  headers =
      (content_type, codes "text/plain; charset=utf-8") ∷ nosniff ∷ (content_length, 13 ∷ []) ∷ [];
  body = sync (codes "404 not found");
}
unfolding run
nothing_found = refl

kept_on_origin : (rendered false (core (server_fn 10 tt))).status ≡ 302
unfolding run
kept_on_origin = refl

finish_response-get_all_example :
    (values_of content_length (finish_response listed true taken_over).headers
      ≡ or_else
          (values_of content_length taken_over.headers)
          (defaults listed content_length taken_over.body))
    × ((finish_response listed true taken_over).status ≡ taken_over.status)
    × ((finish_response listed true taken_over).body ≡ (if true then sync [] else taken_over.body))
finish_response-get_all_example =
    finish_response-get_all listed listed-IsLawful true content_length taken_over

render_head_example :
    rendered false
      (as_method listed app (λ headers. false) true head (core (preset taken_over (codes "asset"))))
    ≡ record (rendered false (
        as_method listed app
          (λ headers. false)
          true
          get
          (core (preset taken_over (codes "asset"))))) { body = sync [] }
render_head_example =
    render_head listed app (λ headers. false) true false []
      (core (preset taken_over (codes "asset"))) (ready taken_over (codes "asset"))

-- A body over the limit does not reach the server function.
too_large :
    (render listed app (λ headers. false) true false (codes "four") (core (server_fn 3 tt))).status
    ≡ 413
unfolding run
too_large = refl

no_own_location :
    values_of location (answer listed app 10 tt (request_of [] (core (server_fn 10 tt)))).1.headers
    ≡ []
unfolding run
no_own_location = refl

render-locations_example :
    All
      (HasLocal listed listed-IsLawful)
      (values_of location (rendered false (core (server_fn 10 tt))).headers)
    ⊎ ((is_redirection taken_over.status ≡ false)
        × (values_of location (rendered false (core (server_fn 10 tt))).headers
            ≡ values_of location taken_over.headers))
unfolding run_limited
render-locations_example =
    render-locations listed listed-IsLawful app (λ headers. false) true false []
      (core (server_fn 10 tt)) 10 tt refl no_own_location
