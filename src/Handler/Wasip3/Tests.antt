-- ===== src/Handler/Wasip3/Tests.antt =====
-- Preview 3 requests whose body is a list of chunks, and the report of a response.
use leptos_wasi.Prelude.{
  ℕ, ◌≤◌, ◌≡◌, refl, true, false, List, [], ◌∷◌, none, some, if◌then◌else◌, leb, Result, ok, err,
  length, arith,
}
use leptos_wasi.Std.Str.{Bytes, bytes_eq, split, trim_start, trim_end, decimal_from, parse_u64}
use leptos_wasi.Std.Codes.{codes}
use leptos_wasi.Http.{content_length, values_of}
use leptos_wasi.Http.Listed.{Headers, listed}
use leptos_wasi.Request
use leptos_wasi.Request.Parts.{Parts}
use leptos_wasi.Request.Parts.Tests.{plain_parsers}
use leptos_wasi.Handler.Core
use leptos_wasi.Handler.Policy.{
  HandlerConfig, invalid_content_length, validate_content_length, read_values, read_parts,
  read_length, check_limit,
}
use leptos_wasi.Handler.Trace.{finish, mark_first_byte, encoded}
use leptos_wasi.Handler.Wasip2.Send.{World}
use leptos_wasi.Handler.Wasip2.Send.Tests.{Wire, wire}
use leptos_wasi.Handler.Wasip2.Build
use leptos_wasi.Handler.Wasip2.Build.Tests.{client}
use leptos_wasi.Handler.Wasip3.{BodyError, length_limit, left, Collector, build_with_config}
use leptos_wasi.Handler.Wasip3.Intake.{
  IsLimiting, IsTaken, refused_core, build_with_config-IsTaken, build_with_config-agree,
}
use leptos_wasi.Handler.Wasip3.Traced.{
  Polled, pending, ended, data_frame, TraceBody, trace_finish, add_report, poll_frame, drop_body,
  polls, end_of, IsReported, polls-IsReported,
}

abbrev limited : ℕ → Bytes → Result Bytes (BodyError (Unit {0}))
limited limit body = if leb (length body) limit then ok body else err length_limit

abbrev whole : Collector Bytes (Unit {0})
whole = record { collect = limited; select = λ budget limit s. left (limited limit s) }

limited-IsWithin : (limit : ℕ) (s body : Bytes) → limited limit s ≡ ok body → length body ≤ limit
limited-IsWithin limit s body h = ground arith

left_back : (a b : Result Bytes (BodyError (Unit {0}))) → left a ≡ left b → a ≡ b
left_back a b h = cc

whole-IsLimiting : IsLimiting whole
whole-IsLimiting = record {
  collect_within = limited-IsWithin;
  select_within = λ budget limit s body h. limited-IsWithin limit s body (left_back _ _ h);
}

abbrev config : HandlerConfig
config = record { max_request_body_size = 20; request_body_timeout_ns = none }

abbrev parts : Headers → Parts Headers Bytes
parts headers = record {
  method = Core.other (codes "POST");
  uri = codes "/form";
  headers = headers;
}

abbrev start : World Wire
start = record { host = ([], []); acts = [] }

build_with_config-IsTaken_example :
    IsTaken {F = Unit {0}} {Stream = Unit {0}} {X = Unit {0}} listed
      (λ (uri : Bytes). uri)
      tt
      1000
      tt
      whole
      whole-IsLimiting
      (parts [])
      (codes "leptos")
      config
      (build_with_config listed (λ uri. uri) tt 1000 tt whole (parts []) (codes "leptos") config)
build_with_config-IsTaken_example =
    build_with_config-IsTaken listed (λ uri. uri) tt 1000 tt whole whole-IsLimiting (parts [])
      (codes "leptos") config

abbrev bad_length : Headers
bad_length = (codes "content-length", codes "x") ∷ []

run : Unit {0}
unfolding validate_content_length read_values read_parts read_length check_limit split trim_start
    trim_end decimal_from parse_u64 values_of bytes_eq polls poll_frame drop_body trace_finish
    add_report finish mark_first_byte encoded
run = tt

refuses :
    validate_content_length listed.to_str 1000 (values_of content_length bad_length) 20
    ≡ err invalid_content_length
unfolding run
refuses = refl

build_with_config-agree_example :
    (Build.on_request_parts {F = Unit {0}} {Stream = Unit {0}} listed plain_parsers
        (λ uri. uri)
        tt
        client
        wire
        1000
        0
        config
        Request.Method.post
        (ok (parts bad_length))
        start
      ≡ some (
        ok (record {
          core =
              refused_core listed
                (λ (uri : Bytes). uri)
                tt
                config
                (parts bad_length)
                invalid_content_length;
          body = [];
          response_out = true;
        }),
        start,
      ))
    × (build_with_config {F = Unit {0}} {Stream = Unit {0}} {X = Unit {0}} listed
          (λ uri. uri)
          tt
          1000
          tt
          whole
          (parts bad_length)
          []
          config
        ≡ ok (
          refused_core listed (λ uri. uri) tt config (parts bad_length) invalid_content_length,
          [],
        ))
build_with_config-agree_example =
    build_with_config-agree listed plain_parsers (λ uri. uri) tt 1000 client wire tt whole
      (Unit {0}) (Unit {0}) (Unit {0}) 0 config Request.Method.post (parts bad_length) start []
      invalid_content_length refuses

abbrev fresh : TraceBody
fresh = record {
  trace = record { first_byte_micros = 0; finished = false };
  status = 200;
  response_bytes = 0;
  reports = [];
}

abbrev chunks : List (ℕ × Polled)
chunks = (3, data_frame 6) ∷ (4, pending) ∷ (5, data_frame 5) ∷ (6, ended) ∷ []

reports_end :
    (polls chunks fresh).reports
    ≡ record {
      status = 200;
      response_bytes = 11;
      cancelled = false;
      error_class = codes "none";
      first_byte = some 3;
    }
      ∷ []
unfolding run
reports_end = refl

polls-IsReported_example : IsReported 200 (end_of chunks 0) (polls chunks fresh).reports
polls-IsReported_example = polls-IsReported chunks fresh refl refl
