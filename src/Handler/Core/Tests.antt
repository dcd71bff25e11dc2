-- ===== src/Handler/Core/Tests.antt =====
-- Requests over texts: headers are an association list, and a route table is a text.
use leptos_wasi.Prelude.{
  ◌≡◌, ◌≤◌, refl, true, false, List, [], ◌∷◌, Option, none, some, ok, err, if◌then◌else◌, All-map,
  ◌≢◌,
}
use leptos_wasi.Std.Str.{Bytes, bytes_eq, strip_prefix, contains}
use leptos_wasi.Std.Str.Laws.{contains-Free}
use leptos_wasi.Std.Codes.{codes}
use leptos_wasi.StaticFiles.Safety.{IsSafe, IsPlain}
use leptos_wasi.Http.Listed.{Headers, listed}
use leptos_wasi.Http.{sync, Response}
use leptos_wasi.Handler.Core.{
  other, Selection, unclaimed, HandlerCore, routes_already_generated, shortcut, with_server_fn,
  generate_routes,
}
use leptos_wasi.Handler.Core.Files.{
  StaticRequest, PrefixUri, matches, raw_path, prefix_is_valid, static_files_handler_with,
  claim_asset,
}
use leptos_wasi.Handler.Core.Calls.{Call, serve, routes, call, calls}
use leptos_wasi.Handler.Core.Claimed.{IsKept, calls-IsKept, calls-generate_once, generations}
use leptos_wasi.Handler.Core.Assets.{static_files_handler_with-agree}

abbrev Request : Type 0
Request = HandlerCore Bytes (Response (Headers) (Unit {0})) (Headers) Bytes

abbrev post_to : Bytes → Request
post_to path = record {
  method = other (codes "POST");
  path = path;
  headers = [];
  selection = unclaimed;
  ssr_router = codes "none";
  routes_registered = false;
  config = record { max_request_body_size = 100; request_body_timeout_ns = none };
}

abbrev claimed : Request
claimed = record (post_to (codes "/api/f")) { selection = Selection.server_fn 100 (codes "f") }

abbrev chain : List (Call Bytes (Headers) Bytes (Unit {0}) Bytes)
chain = serve (codes "POST") (codes "/api/f") (codes "g") ∷ routes (ok (codes "table")) ∷ []

run : Unit {0}
unfolding calls call with_server_fn generate_routes shortcut bytes_eq matches strip_prefix raw_path
    prefix_is_valid static_files_handler_with claim_asset generations
run = tt

selects :
    calls listed chain (post_to (codes "/api/f"))
    ≡ ok (record claimed {
      selection = Selection.server_fn 100 (codes "g");
      routes_registered = true;
    })
unfolding run
selects = refl

stays : calls listed chain claimed ≡ ok (record claimed { routes_registered = true })
unfolding run
stays = refl

twice : calls listed (routes (ok (codes "a")) ∷ chain) claimed ≡ err routes_already_generated
unfolding run
twice = refl

boundary : matches (codes "/static") (codes "/statics/a.css") ≡ false
unfolding run
boundary = refl

under : raw_path (codes "/static") (codes "/static/a.css") ≡ codes "a.css"
unfolding run
under = refl

is_claimed : shortcut claimed ≡ true
unfolding run
is_claimed = refl

calls-IsKept_example : IsKept listed claimed (record claimed { routes_registered = true })
calls-IsKept_example =
    calls-IsKept listed chain claimed (record claimed { routes_registered = true }) is_claimed stays

calls-generate_once_example : generations chain ≤ 1
calls-generate_once_example =
    calls-generate_once listed chain claimed (record claimed { routes_registered = true }) stays

abbrev css : StaticRequest Bytes → Option (Response (Headers) (Unit {0}))
css request = some (record { status = 200; headers = []; body = sync request.path })

-- A callback that would open a file behind a backslash, where `css` does not.
abbrev reckless : StaticRequest Bytes → Option (Response (Headers) (Unit {0}))
reckless request = if contains (codes "\\") request.path then none else css request

agree : (request : StaticRequest Bytes) → IsSafe request.path → css request ≡ reckless request
agree request h =
    rw
      (contains-Free b'\\' request.path
        (All-map IsPlain (λ b. b ≢ b'\\') request.path (λ b k. k.2) h.plain))
      refl

abbrev static_uri : PrefixUri
static_uri = record {
  path = codes "/static";
  has_scheme = false;
  has_authority = false;
  has_query = false;
}

static_files_handler_with-agree_example :
    static_files_handler_with listed (some static_uri) css (post_to (codes "/static/a.css"))
    ≡ static_files_handler_with listed (some static_uri) reckless (post_to (codes "/static/a.css"))
static_files_handler_with-agree_example =
    static_files_handler_with-agree listed css reckless agree (some static_uri)
      (post_to (codes "/static/a.css"))
