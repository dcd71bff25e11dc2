-- ===== src/Request/Parts.antt =====
-- src/request.rs, module `p2`: the conversion of a Preview 2 request into one of the http crate. The
-- parsers of that crate are parameters, in the record `Parsers`.
pub mod Tests
use leptos_wasi.Prelude.{
  ℕ, Bool, true, false, List, [], ◌∷◌, Option, none, some, Result, ok, err, ◌>>=◌, ok_or,
}
use leptos_wasi.Std.Str.{Bytes}
use leptos_wasi.Std.Codes.{codes}
use leptos_wasi.Http.{HeaderName, Http, content_length}
use leptos_wasi.Handler.Core
use leptos_wasi.Handler.Policy.{RequestPolicyError, validate_content_length}
use leptos_wasi.Request.{RequestError, http, Method, Host, collect_wasi_body}

-- The host's `Scheme`.
pub data Scheme : Type 0 where
  http_scheme https_scheme : Scheme
  other_scheme : Bytes → Scheme

-- `header` is `http::request::Builder::header` on an entry, which fails on a name or a value that is
-- not valid; the others are named after the functions of `http::Method` and `http::uri`.
pub record Parsers (H Uri : Type 0) : Type 0 where
  pub method_from_bytes : Bytes → Option Core.Method
  pub scheme_try_from : Bytes → Option Bytes
  pub authority_from : Bytes → Option Bytes
  pub path_and_query_from : Bytes → Option Bytes
  pub uri_from_parts : Option Bytes → Option Bytes → Option Bytes → Option Uri
  pub header : Bytes → Bytes → H → Option H

-- What the host tells of a request.
pub record IncomingRequest : Type 0 where
  pub entries : List (Bytes × Bytes)
  pub scheme : Option Scheme
  pub authority : Option Bytes
  pub path_with_query : Option Bytes
  pub method : Method

-- `http::request::Parts`.
pub record Parts (H Uri : Type 0) : Type 0 where
  pub method : Core.Method
  pub uri : Uri
  pub headers : H

-- `map(f).transpose()`.
abbrev pub transpose : {A B E : Type 0} → (A → Result B E) → Option A → Result (Option B) E
transpose f none = ok none
transpose f (some a) = f a >>= λ b. ok (some b)

module _ {H Uri : Type 0} (parsers : Parsers H Uri) where
  unfoldable pub method_wasi_to_http : Method → Result Core.Method RequestError
  method_wasi_to_http Method.connect = ok (Core.other (codes "CONNECT"))
  method_wasi_to_http Method.delete = ok (Core.other (codes "DELETE"))
  method_wasi_to_http Method.get = ok Core.get
  method_wasi_to_http Method.head = ok Core.head
  method_wasi_to_http Method.options = ok (Core.other (codes "OPTIONS"))
  method_wasi_to_http Method.patch = ok (Core.other (codes "PATCH"))
  method_wasi_to_http Method.post = ok (Core.other (codes "POST"))
  method_wasi_to_http Method.put = ok (Core.other (codes "PUT"))
  method_wasi_to_http Method.trace = ok (Core.other (codes "TRACE"))
  method_wasi_to_http (Method.other method) = ok_or http (parsers.method_from_bytes method)

  unfoldable pub scheme_wasi_to_http : Scheme → Result Bytes RequestError
  scheme_wasi_to_http http_scheme = ok (codes "http")
  scheme_wasi_to_http https_scheme = ok (codes "https")
  scheme_wasi_to_http (other_scheme scheme) = ok_or http (parsers.scheme_try_from scheme)

  -- The loop over the header entries; the builder keeps its first error until `body`.
  unfoldable pub add_headers : List (Bytes × Bytes) → Option H → Option H
  add_headers [] builder = builder
  add_headers ((name, value) ∷ entries) none = add_headers entries none
  add_headers ((name, value) ∷ entries) (some headers) =
      add_headers entries (parsers.header name value headers)

  unfoldable pub request_parts : H → IncomingRequest → Result (Parts H Uri) RequestError
  request_parts empty request = transpose scheme_wasi_to_http request.scheme >>= λ scheme.
      transpose (λ authority. ok_or http (parsers.authority_from authority)) request.authority
      >>= λ authority.
          transpose (λ path. ok_or http (parsers.path_and_query_from path)) request.path_with_query
          >>= λ path. method_wasi_to_http request.method >>= λ method.
              ok_or http (parsers.uri_from_parts scheme authority path) >>= λ uri.
              ok_or http (add_headers request.entries (some empty)) >>= λ headers.
              ok (record { method = method; uri = uri; headers = headers })

module _ {S H Value Uri : Type 0} (types : Http H Value) (parsers : Parsers H Uri) (host : Host S)
    (usize_max fuel : ℕ) where
  unfoldable pub on_collected :
      {A : Type 0}
      → A
      → Option (Result Bytes RequestError × S)
      → Option (Result (A × Bytes) RequestError × S)
  on_collected parts none = none
  on_collected parts (some (ok body, s)) = some (ok (parts, body), s)
  on_collected parts (some (err e, s)) = some (err e, s)

  -- `collect_wasi_body` of a request with these headers.
  unfoldable pub collect_body :
      H → Method → ℕ → Option ℕ → S → Option (Result Bytes RequestError × S)
  collect_body headers method max_body_size timeout_ns s =
      collect_wasi_body host usize_max max_body_size fuel
        (validate_content_length types.to_str usize_max (types.get_all content_length headers)
          max_body_size)
        method timeout_ns s

  unfoldable pub on_parts :
      Method
      → ℕ
      → Option ℕ
      → S
      → Result (Parts H Uri) RequestError
      → Option (Result (Parts H Uri × Bytes) RequestError × S)
  on_parts method max_body_size timeout_ns s (err e) = some (err e, s)
  on_parts method max_body_size timeout_ns s (ok parts) =
      on_collected parts (collect_body parts.headers method max_body_size timeout_ns s)

  unfoldable pub from_wasi_request_with_deadline :
      IncomingRequest → ℕ → Option ℕ → S → Option (Result (Parts H Uri × Bytes) RequestError × S)
  from_wasi_request_with_deadline request max_body_size timeout_ns s =
      on_parts request.method max_body_size timeout_ns s (request_parts parsers types.empty request)

  unfoldable pub from_wasi_request :
      IncomingRequest → ℕ → S → Option (Result (Parts H Uri × Bytes) RequestError × S)
  from_wasi_request request max_body_size s =
      from_wasi_request_with_deadline request max_body_size none s
