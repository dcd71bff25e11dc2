-- ===== src/Handler/Wasip3/Answer/Tests.antt =====
-- A request with a length that is no number, to an application that registers its routes.
use leptos_wasi.Prelude.{◌≡◌, refl, true, false, List, [], ◌∷◌, Option, some, Result, ok, err}
use leptos_wasi.Std.Str.{Bytes, bytes_eq, split, trim_start, trim_end, decimal_from, parse_u64}
use leptos_wasi.Std.Codes.{codes}
use leptos_wasi.Http.{Response, sync, content_length, values_of}
use leptos_wasi.Http.Listed.{Headers, listed, listed-IsLawful}
use leptos_wasi.Request.Parts.{Parts}
use leptos_wasi.Handler.Policy.{
  HandlerConfig, invalid_content_length, validate_content_length, read_values, read_parts,
  read_length, check_limit,
}
use leptos_wasi.Handler.Core.{
  other, HandlerCore, is_head, shortcut, new, with_preset, generate_routes,
}
use leptos_wasi.Handler.Core.Calls.{Call, routes, call, calls}
use leptos_wasi.Handler.Render.{SsrMode, out_of_order, RenderMode, App}
use leptos_wasi.Handler.Wasip3.{
  Collector, right, build_with_config, ingest, on_validated, from_ingested,
}
use leptos_wasi.Handler.Wasip3.Traced.{TraceBody}
use leptos_wasi.Handler.Wasip3.Intake.{refused_core}
use leptos_wasi.Handler.Wasip3.Answer.{convert, handle_with_context}
use leptos_wasi.Handler.Wasip3.Answer.Refused.{IsRefusal, refused-IsAnswered}

-- A stream is the mode that it is rendered in, and a router the mode of every path.
abbrev Page : Type 0
Page = Response Headers RenderMode

abbrev app : App (Unit {0}) Headers RenderMode (Option SsrMode)
app = record {
  best_match = λ router path. router;
  context = λ request parts. parts;
  run_server_fn = λ f request parts. (record { status = 200; headers = []; body = sync [] }, parts);
  stream = λ mode islands request parts. (mode, parts);
}

-- The host takes every response as it is.
abbrev as_it_is : Page → TraceBody → Result Page (Unit {0})
as_it_is response body = ok response

abbrev unread : Collector Bytes (Unit {0})
unread = record { collect = λ limit s. ok s; select = λ budget limit s. right }

abbrev parts : Parts Headers Bytes
parts = record {
  method = other (codes "POST");
  uri = codes "/form";
  headers = (content_length, codes "x") ∷ [];
}

abbrev config : HandlerConfig
config = record { max_request_body_size = 20; request_body_timeout_ns = some 9 }

abbrev chain : List (Call (Unit {0}) Headers Bytes RenderMode (Option SsrMode))
chain = routes (ok (some out_of_order)) ∷ []

abbrev core : HandlerCore (Unit {0}) Page Headers (Option SsrMode)
core =
    refused_core listed (λ (uri : Bytes). uri) (some out_of_order) config parts
      invalid_content_length

abbrev after : HandlerCore (Unit {0}) Page Headers (Option SsrMode)
after = record core { routes_registered = true }

run : Unit {0}
unfolding validate_content_length read_values read_parts read_length check_limit split trim_start
    trim_end decimal_from parse_u64 values_of bytes_eq build_with_config ingest on_validated
    from_ingested calls call generate_routes shortcut with_preset new
run = tt

refuses :
    validate_content_length listed.to_str 1000 (values_of content_length parts.headers) 20
    ≡ err invalid_content_length
unfolding run
refuses = refl

builds :
    build_with_config {X = Unit {0}} listed
      (λ (uri : Bytes). uri)
      (some out_of_order)
      1000
      tt
      unread
      parts
      (codes "leptos")
      config
    ≡ ok (core, [])
unfolding run
builds = refl

goes_on : calls listed chain core ≡ ok after
unfolding run
goes_on = refl

refused-IsAnswered_example :
    (response : Page) × (IsRefusal listed (is_head after.method) invalid_content_length response)
    × (handle_with_context {X = Unit {0}} listed app (λ headers. true) true as_it_is false [] after
        ≡ convert listed app (λ headers. true) true as_it_is response)
refused-IsAnswered_example =
    refused-IsAnswered listed listed-IsLawful app (λ headers. true) true as_it_is
      (λ (uri : Bytes). uri) (some out_of_order) 1000 tt unread (Unit {0}) parts (codes "leptos")
      config invalid_content_length chain false (core, []) after refuses builds goes_on
