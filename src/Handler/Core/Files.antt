-- ===== src/Handler/Core/Files.antt =====
-- src/handler/core.rs: static assets, which claim the requests under a prefix.
use leptos_wasi.Prelude.{
  ℕ, Bool, false, not, ◌||◌, [], ◌∷◌, Option, none, some, Result, ok, err, if◌then◌else◌, length,
}
use leptos_wasi.Std.Str.{Bytes, bytes_eq, strip_prefix, starts_with}
use leptos_wasi.Std.Codes.{codes}
use leptos_wasi.Http
use leptos_wasi.Http.{
  HeaderName, Http, Body, sync, async, Response, content_type, content_length, contains_key,
  insert_if_absent,
}
use leptos_wasi.StaticFiles.{StaticPathError, normalize_static_path}
use leptos_wasi.Handler.Plain.{plain_response}
use leptos_wasi.Handler.ContentType.{content_type_for_static_path}
use leptos_wasi.Handler.Core.{
  Method, Selection, not_found, preset, HandlerCore, RegistrationError, invalid_static_prefix,
  is_get_or_head, is_head, shortcut,
}

abbrev pub accept_encoding : HeaderName
accept_encoding = codes "accept-encoding"

abbrev pub allow : HeaderName
allow = codes "allow"

abbrev pub if_modified_since : HeaderName
if_modified_since = codes "if-modified-since"

abbrev pub if_none_match : HeaderName
if_none_match = codes "if-none-match"

pub record StaticRequest (Value : Type 0) : Type 0 where
  pub path : Bytes
  pub if_none_match : Option Value
  pub if_modified_since : Option Value
  pub accept_encoding : Option Value

-- The `Uri` of a prefix, as far as it is read.
pub record PrefixUri : Type 0 where
  pub path : Bytes
  pub has_scheme : Bool
  pub has_authority : Bool
  pub has_query : Bool

-- `str::ends_with('/')`.
abbrev pub ends_with_slash : Bytes → Bool
ends_with_slash [] = false
ends_with_slash (b ∷ []) = starts_with (codes "/") (b ∷ [])
ends_with_slash (b ∷ c ∷ cs) = ends_with_slash (c ∷ cs)

-- `Option::is_some_and` and `Option::unwrap_or` on what is left of a prefix.
abbrev pub rest_matches : Bytes → Option Bytes → Bool
rest_matches prefix_path none = false
rest_matches prefix_path (some rest) = starts_with (codes "/") rest || ends_with_slash prefix_path

abbrev pub unwrap_or : {A : Type 0} → A → Option A → A
unwrap_or default none = default
unwrap_or default (some a) = a

-- Whether the request path is the prefix or lies under it.
unfoldable pub matches : Bytes → Bytes → Bool
matches prefix_path req_path =
    bytes_eq req_path prefix_path || rest_matches prefix_path (strip_prefix prefix_path req_path)

-- The path under the prefix, before it is normalized.
unfoldable pub raw_path : Bytes → Bytes → Bytes
raw_path prefix_path req_path =
    let stripped = unwrap_or [] (strip_prefix prefix_path req_path) in
    if ends_with_slash prefix_path
    then stripped
    else unwrap_or stripped (strip_prefix (codes "/") stripped)

unfoldable pub prefix_is_valid : PrefixUri → Bool
prefix_is_valid uri =
    not (
      not (starts_with (codes "/") uri.path)
      || uri.has_scheme
      || uri.has_authority
      || uri.has_query)

unfoldable pub original_length : {Stream : Type 0} → Body Stream → Option ℕ
original_length (sync bytes) = some (length bytes)
original_length (async stream) = none

module _ {H Value : Type 0} (map : Http H Value) where
  unfoldable pub set_length : Option ℕ → H → H
  set_length none headers = headers
  set_length (some n) headers = insert_if_absent map content_length (map.number n) headers

  -- The arm `Some(mut response)`.
  unfoldable pub finish_asset :
      {Stream : Type 0} → Method → Bytes → Response H Stream → Response H Stream
  finish_asset method decoded response = record {
    status = response.status;
    headers = set_length (original_length response.body) (
        insert_if_absent map content_type (content_type_for_static_path map decoded)
          response.headers);
    body = (if is_head method then sync [] else response.body);
  }

  unfoldable pub method_not_allowed : {Stream : Type 0} → Response H Stream
  method_not_allowed =
      let response = plain_response map 405 (codes "method not allowed") in
      record response { headers = map.insert allow (map.text (codes "GET, HEAD")) response.headers }

module _ {H Value Stream : Type 0} (map : Http H Value) where
  -- `map(http::Response::new)`.
  abbrev pub new_response : Option (Body Stream) → Option (Response H Stream)
  new_response none = none
  new_response (some body) = some (record { status = 200; headers = map.empty; body = body })

module _ {F H Value Stream : Type 0} (map : Http H Value) where
  unfoldable pub asset_selection :
      Method → Bytes → Option (Response H Stream) → Selection F (Response H Stream)
  asset_selection method decoded none = not_found
  asset_selection method decoded (some response) =
      preset (finish_asset map method decoded response) (codes "static")

module _ {F H Value Stream Router : Type 0} (map : Http H Value) where
  -- From `normalize_static_path` on.
  unfoldable pub serve_asset :
      (StaticRequest Value → Option (Response H Stream))
      → HandlerCore F (Response H Stream) H Router
      → Result Bytes StaticPathError
      → Selection F (Response H Stream)
  serve_asset handler self (err e) = not_found
  serve_asset handler self (ok decoded) = asset_selection map self.method decoded (
      handler (record {
        path = decoded;
        if_none_match = Http.get map if_none_match self.headers;
        if_modified_since = Http.get map if_modified_since self.headers;
        accept_encoding = Http.get map accept_encoding self.headers;
      }))

  unfoldable pub claim_asset :
      Bytes
      → (StaticRequest Value → Option (Response H Stream))
      → HandlerCore F (Response H Stream) H Router
      → HandlerCore F (Response H Stream) H Router
  claim_asset prefix_path handler self =
      if not (matches prefix_path self.path)
      then self
      else if not (is_get_or_head self.method)
      then record self { selection = preset (method_not_allowed map) (codes "static") }
      else record self {
        selection =
            serve_asset handler self (normalize_static_path (raw_path prefix_path self.path));
      }

  -- `static_files_handler_with`; `none` is a prefix that does not parse.
  unfoldable pub static_files_handler_with :
      Option PrefixUri
      → (StaticRequest Value → Option (Response H Stream))
      → HandlerCore F (Response H Stream) H Router
      → Result (HandlerCore F (Response H Stream) H Router) RegistrationError
  static_files_handler_with none handler self = err invalid_static_prefix
  static_files_handler_with (some uri) handler self =
      if not (prefix_is_valid uri)
      then err invalid_static_prefix
      else if shortcut self
      then ok self
      else ok (claim_asset uri.path handler self)

  -- `static_files_handler`, whose callback sees the path only and gives a body.
  unfoldable pub static_files_handler :
      Option PrefixUri
      → (Bytes → Option (Body Stream))
      → HandlerCore F (Response H Stream) H Router
      → Result (HandlerCore F (Response H Stream) H Router) RegistrationError
  static_files_handler uri handler self =
      static_files_handler_with uri
        (λ (request : StaticRequest Value). new_response map (handler request.path)) self
