-- ===== src/Response.antt =====
-- src/response.rs: the response parts that an application sets, their merge into a response, and the
-- frames of a body.
pub mod Merged
mod Tests
use leptos_wasi.Prelude.{
  ℕ, zero, suc, Bool, true, false, not, ◌||◌, List, [], ◌∷◌, ◌++◌, Option, none, some, Result, ok,
  err, if◌then◌else◌, length, any, is_empty,
}
use leptos_wasi.Std.Str.{Bytes, bytes_eq}
use leptos_wasi.Std.Codes.{codes}
use leptos_wasi.Http.{
  HeaderName, Http, Body, sync, async, Response, named, content_type, insert_if_absent,
}

-- `ResponseParts`, behind the lock of `ResponseOptions`.
pub record ResponseParts (H : Type 0) : Type 0 where
  pub headers : H
  pub status : Option ℕ

-- The names of `is_list_valued`.
abbrev list_valued : List HeaderName
list_valued =
    codes "set-cookie"
    ∷ codes "cookie"
    ∷ codes "www-authenticate"
    ∷ codes "link"
    ∷ codes "accept"
    ∷ codes "accept-encoding"
    ∷ codes "accept-language"
    ∷ codes "cache-control"
    ∷ codes "warning"
    ∷ []

unfoldable pub is_list_valued : HeaderName → Bool
is_list_valued name = any (bytes_eq name) list_valued

module _ {H : Type 0} where
  -- The setters of `ResponseParts`, which those of `ResponseOptions` call under the lock.
  unfoldable pub set_status : ℕ → ResponseParts H → ResponseParts H
  set_status status parts = record parts { status = some status }

  unfoldable pub clear_status : ResponseParts H → ResponseParts H
  clear_status parts = record parts { status = none }

  unfoldable pub overwrite : ResponseParts H → ResponseParts H → ResponseParts H
  overwrite parts old = parts

-- `if let Some(status_code) = opt.status`.
unfoldable pub override_status : Option ℕ → ℕ → ℕ
override_status none status = status
override_status (some status_code) status = status_code

module _ {H Value : Type 0} (types : Http H Value) where
  -- `ResponseParts::default`.
  unfoldable pub default : ResponseParts H
  default = record { headers = types.empty; status = none }

  unfoldable pub insert_header : HeaderName → Value → ResponseParts H → ResponseParts H
  insert_header key value parts = record parts { headers = types.insert key value parts.headers }

  unfoldable pub append_header : HeaderName → Value → ResponseParts H → ResponseParts H
  append_header key value parts = record parts { headers = types.append key value parts.headers }

  -- The loop of `extend_response`, over the items with their names.
  unfoldable pub extend_entries : List (HeaderName × Value) → H → H
  extend_entries [] dest = dest
  extend_entries ((name, value) ∷ entries) dest =
      extend_entries entries
        (if is_list_valued name then types.append name value dest else types.insert name value dest)

  -- `extend_response`, and the parts that it leaves behind: their headers are taken.
  unfoldable pub extend_response :
      {Stream : Type 0} → ResponseParts H → Response H Stream → ResponseParts H × Response H Stream
  extend_response opt response = (
    record opt { headers = types.empty },
    record {
      status = override_status opt.status response.status;
      headers = extend_entries (named none (types.into_iter opt.headers)) response.headers;
      body = response.body;
    },
  )

  unfoldable pub default_content_type : Option Value → H → H
  default_content_type none headers = headers
  default_content_type (some value) headers = insert_if_absent types content_type value headers

  -- `set_default_content_type`.
  unfoldable pub set_default_content_type :
      {Stream : Type 0} → Bytes → Response H Stream → Response H Stream
  set_default_content_type text response = record response {
    headers = default_content_type (types.from_str text) response.headers;
  }

-- `Poll<Option<Result<Bytes, Error>>>`.
pub data Frame (E : Type 0) : Type 0 where
  pending end : Frame E
  frame : Bytes → Frame E
  error : E → Frame E

module _ {Stream E : Type 0} (poll_next : Stream → Frame E × Stream) where
  -- `Body::poll_frame`.
  unfoldable pub poll_frame : Body Stream → Frame E × Body Stream
  poll_frame (sync []) = (end, sync [])
  poll_frame (sync (b ∷ bs)) = (frame (b ∷ bs), sync [])
  poll_frame (async stream) = ((poll_next stream).0, async (poll_next stream).1)

-- `Body::is_end_stream`.
unfoldable pub is_end_stream : {Stream : Type 0} → Body Stream → Bool
is_end_stream (sync bytes) = is_empty bytes
is_end_stream (async stream) = false

-- `Body::size_hint`: `some` is an exact hint.
unfoldable pub size_hint : {Stream : Type 0} → Body Stream → Option ℕ
size_hint (sync bytes) = some (length bytes)
size_hint (async stream) = none

-- `body_stream`, on the frames of an `http_body::Body`; a frame of trailers is `none`.
unfoldable pub body_stream :
    {E F : Type 0} → (E → F) → List (Result (Option Bytes) E) → List (Result Bytes F)
body_stream map_err [] = []
body_stream map_err (ok (some bytes) ∷ frames) = ok bytes ∷ body_stream map_err frames
body_stream map_err (ok none ∷ frames) = body_stream map_err frames
body_stream map_err (err e ∷ frames) = err (map_err e) ∷ body_stream map_err frames
