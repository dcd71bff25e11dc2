-- ===== src/Utils.antt =====
-- src/utils.rs: `redirect`. The reactive context is two arguments, the headers of the request and the
-- response parts; `REDIRECT_HEADER` and `accepts_html` are parameters.
pub mod Redirected
mod Tests
use leptos_wasi.Prelude.{Bool, Option, none, some, if◌then◌else◌}
use leptos_wasi.Std.Str.{Bytes}
use leptos_wasi.Std.Codes.{codes}
use leptos_wasi.Http.{HeaderName, Http, location}
use leptos_wasi.Response.{ResponseParts, set_status, insert_header}

module _ {H Value : Type 0} (types : Http H Value) (redirect_header : HeaderName)
    (accepts_html : H → Bool) where
  -- The tail of `redirect`: a form request gets a real redirect, the client of a server function a
  -- header.
  unfoldable pub signal_redirect : H → ResponseParts H → ResponseParts H
  signal_redirect headers res =
      if accepts_html headers
      then set_status 302 res
      else insert_header types redirect_header (types.text (codes "")) res

  -- The match on `HeaderValue::from_str(path)`.
  unfoldable pub redirect_to : Option Value → H → ResponseParts H → ResponseParts H
  redirect_to none headers res = set_status 400 res
  redirect_to (some value) headers res =
      signal_redirect headers (insert_header types location value res)

  -- `redirect`: the response parts afterwards, if the context has them.
  unfoldable pub redirect : Bytes → Option H → Option (ResponseParts H) → Option (ResponseParts H)
  redirect path (some headers) (some res) = some (redirect_to (types.from_str path) headers res)
  redirect path none res = res
  redirect path (some headers) none = none
