-- ===== src/Request/Parts/Tests.antt =====
-- A request of the host, as one of the http crate; a URI is its path.
use leptos_wasi.Prelude.{◌≡◌, refl, [], ◌∷◌, ◌++◌, none, some, ok, err}
use leptos_wasi.Std.Str.{Bytes}
use leptos_wasi.Std.Codes.{codes}
use leptos_wasi.Handler.Core
use leptos_wasi.Http.Listed.{Headers}
use leptos_wasi.Request.{http, Method}
use leptos_wasi.Request.Parts.{
  http_scheme, other_scheme, Parsers, IncomingRequest, method_wasi_to_http, scheme_wasi_to_http,
  add_headers, request_parts,
}

abbrev pub plain_parsers : Parsers Headers Bytes
plain_parsers = record {
  method_from_bytes = λ name. some (Core.other name);
  scheme_try_from = λ scheme. none;
  authority_from = some;
  path_and_query_from = some;
  uri_from_parts = λ scheme authority path. path;
  header = λ name value headers. some (headers ++ (name, value) ∷ []);
}

abbrev pub incoming : IncomingRequest
incoming = record {
  entries = (codes "content-length", codes "11") ∷ [];
  scheme = some http_scheme;
  authority = some (codes "localhost");
  path_with_query = some (codes "/form");
  method = Method.post;
}

run : Unit {0}
unfolding request_parts method_wasi_to_http scheme_wasi_to_http add_headers
run = tt

converts :
    request_parts plain_parsers [] incoming
    ≡ ok (record {
      method = Core.other (codes "POST");
      uri = codes "/form";
      headers = (codes "content-length", codes "11") ∷ [];
    })
unfolding run
converts = refl

bad_scheme :
    request_parts plain_parsers [] (record incoming { scheme = some (other_scheme (codes "x y")) })
    ≡ err http
unfolding run
bad_scheme = refl
