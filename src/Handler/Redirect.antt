-- ===== src/Handler/Redirect.antt =====
-- src/handler/http_util.rs: `sanitize_referrer` and `mirror_referrer_spelling`;
-- src/handler/server_fns.rs: `apply_server_fn_redirect`.
pub mod SameOrigin
mod Tests
use leptos_wasi.Prelude.{
  ℕ, Bool, true, false, not, ◌&&◌, ◌||◌, List, [], ◌∷◌, Option, none, some, if◌then◌else◌, is_empty,
}
use leptos_wasi.Std.Str.{Bytes, starts_with, contains, is_some}
use leptos_wasi.Std.Codes.{codes}
use leptos_wasi.Http.{
  HeaderName, Http, Response, location, referer, first, get, contains_key, is_success,
  is_redirection,
}

abbrev pub referrer_spelling : HeaderName
referrer_spelling = codes "referrer"

-- The two tests of the path that `sanitize_referrer` makes.
unfoldable pub has_backslash : Bytes → Bool
has_backslash path =
    starts_with (codes "/\\") path
    || contains (codes "\\") path
    || contains (codes "%5c") path
    || contains (codes "%5C") path

unfoldable pub is_rooted : Bytes → Bool
is_rooted path = starts_with (codes "/") path && not (starts_with (codes "//") path)

-- `?` on an `Option`.
abbrev pub and_then : {A B : Type 0} → Option A → (A → Option B) → Option B
and_then none f = none
and_then (some a) f = f a

module _ {H Value : Type 0} (types : Http H Value) where
  unfoldable pub sanitize_path : Bytes → Option Value
  sanitize_path path =
      if has_backslash path then none else if is_rooted path then types.from_str path else none

  unfoldable pub sanitize_referrer : Value → Option Value
  sanitize_referrer referrer =
      and_then (types.to_str referrer)
        λ value. and_then (types.path_and_query value) λ path. sanitize_path path

  -- `sanitize_referrer(value).or_else(|| Some(HeaderValue::from_static("/")))`.
  unfoldable pub sanitized_or_root : Option Value → Value
  sanitized_or_root none = types.text (codes "/")
  sanitized_or_root (some value) = value

  -- The first `if`: the target, with the status set.
  unfoldable pub promote :
      {Stream : Type 0} → Bool → Option Value → Response H Stream → Option Value × Response H Stream
  promote accepts_html none response = (none, response)
  promote accepts_html (some referrer) response =
      if accepts_html
        && (is_success response.status || is_redirection response.status)
        && not (contains_key types location response.headers)
      then (some (sanitized_or_root (sanitize_referrer referrer)), record response { status = 302 })
      else (none, response)

  -- The second `if`; `status` was read before the first.
  unfoldable pub rewrite_location : ℕ → Option Value → Option Value → Option Value
  rewrite_location status (some target) current = some target
  rewrite_location status none none = none
  rewrite_location status none (some current) =
      if is_redirection status then some (sanitized_or_root (sanitize_referrer current)) else none

  -- The third `if`.
  unfoldable pub set_location :
      {Stream : Type 0} → Option Value → Response H Stream → Response H Stream
  set_location none response = response
  set_location (some target) response = record response {
    headers = types.insert location target response.headers;
  }

  unfoldable pub apply_server_fn_redirect :
      {Stream : Type 0} → Response H Stream → Bool → Option Value → Response H Stream
  apply_server_fn_redirect response accepts_html referrer =
      let promoted = promote accepts_html referrer response in
      set_location
        (rewrite_location response.status promoted.0 (get types location promoted.1.headers))
        promoted.1

  -- The copy of `Referrer` into an absent `Referer`.
  unfoldable pub mirror_alternate : Option Value → H → H
  mirror_alternate none headers = headers
  mirror_alternate (some alternate) headers = types.insert referer alternate headers

  unfoldable pub mirror_referrer_spelling : H → H
  mirror_referrer_spelling headers =
      if not (is_some (get types referer headers))
      then mirror_alternate (get types referrer_spelling headers) headers
      else headers
