-- ===== src/Handler/Core.antt =====
-- src/handler/core.rs: `HandlerCore`, the registration phase of a request. The header map of the http
-- crate, the bodies of server functions, streams and route tables are parameters.
pub mod Files
pub mod Calls
pub mod Claimed
pub mod Assets
mod Tests
use leptos_wasi.Prelude.{
  ℕ, Bool, true, false, not, ◌&&◌, ◌||◌, List, [], ◌∷◌, Option, none, some, Result, ok, err, ◌>>=◌,
  if◌then◌else◌, length, ltb,
}
use leptos_wasi.Std.Str.{Bytes, bytes_eq, strip_prefix, starts_with, is_some}
use leptos_wasi.Std.Codes.{codes}
use leptos_wasi.Http
use leptos_wasi.Http.{
  HeaderName, Http, Body, sync, async, Response, content_type, content_length, contains_key,
  insert_if_absent,
}
use leptos_wasi.StaticFiles.{StaticPathError, normalize_static_path}
use leptos_wasi.Handler.Policy.{HandlerConfig}
use leptos_wasi.Handler.Plain.{plain_response}
use leptos_wasi.Handler.ContentType.{content_type_for_static_path}

pub data Method : Type 0 where
  get head : Method
  other : Bytes → Method

abbrev pub method_name : Method → Bytes
method_name get = codes "GET"
method_name head = codes "HEAD"
method_name (other name) = name

-- `Selection`; `F` is the type of boxed server functions; with one goes the limit of
-- the body that its closure holds.
pub data Selection (F R : Type 0) : Type 0 where
  unclaimed not_found : Selection F R
  preset : R → Bytes → Selection F R
  server_fn : ℕ → F → Selection F R

-- `HandlerCore`, with the parts of the request that are read here.
pub record HandlerCore (F R H Router : Type 0) : Type 0 where
  pub method : Method
  pub path : Bytes
  pub headers : H
  pub selection : Selection F R
  pub ssr_router : Router
  pub routes_registered : Bool
  pub config : HandlerConfig

-- `HandlerCore::new`, with an empty router.
unfoldable pub new :
    {F R H Router : Type 0} → Router → Method → Bytes → H → HandlerConfig → HandlerCore F R H Router
new router method path headers config = record {
  method = method;
  path = path;
  headers = headers;
  selection = unclaimed;
  ssr_router = router;
  routes_registered = false;
  config = config;
}

unfoldable pub with_preset :
    {F R H Router : Type 0} → R → Bytes → HandlerCore F R H Router → HandlerCore F R H Router
with_preset response route_class self = record self { selection = preset response route_class }

-- `RegistrationError`, without its texts; the errors of a route table are one.
pub data RegistrationError : Type 0 where
  invalid_static_prefix routes_already_generated invalid_route_table : RegistrationError

abbrev pub is_unclaimed : {F R : Type 0} → Selection F R → Bool
is_unclaimed unclaimed = true
is_unclaimed not_found = false
is_unclaimed (preset r class) = false
is_unclaimed (server_fn limit f) = false

abbrev pub is_get_or_head : Method → Bool
is_get_or_head get = true
is_get_or_head head = true
is_get_or_head (other name) = false

abbrev pub is_head : Method → Bool
is_head get = false
is_head head = true
is_head (other name) = false

module _ {F R H Router : Type 0} where
  unfoldable pub shortcut : HandlerCore F R H Router → Bool
  shortcut self = not (is_unclaimed self.selection)

  -- `with_server_fn::<T>`, where `T` has this method and path; `service` is the boxed service. The
  -- closure that is stored holds the limit of the body, which it checks: `Handler.Render.run_limited`.
  unfoldable pub with_server_fn :
      Bytes → Bytes → F → HandlerCore F R H Router → HandlerCore F R H Router
  with_server_fn fn_method fn_path service self =
      if shortcut self
      then self
      else if bytes_eq (method_name self.method) fn_method && bytes_eq self.path fn_path
      then record self { selection = server_fn self.config.max_request_body_size service }
      else self

  -- `generate_routes_with_exclusions_and_discovery_context`, where `table` is the router that the
  -- discovered routes give.
  unfoldable pub generate_routes :
      Result Router RegistrationError
      → HandlerCore F R H Router
      → Result (HandlerCore F R H Router) RegistrationError
  generate_routes table self =
      if self.routes_registered
      then err routes_already_generated
      else if shortcut self
      then ok (record self { routes_registered = true })
      else (table >>= λ router. ok (record self { ssr_router = router; routes_registered = true }))

  -- `generate_routes_from`, with the router of the `RouteTable`.
  unfoldable pub generate_routes_from :
      Router → HandlerCore F R H Router → Result (HandlerCore F R H Router) RegistrationError
  generate_routes_from router self =
      if self.routes_registered
      then err routes_already_generated
      else if shortcut self
      then ok (record self { routes_registered = true })
      else ok (record self { ssr_router = router; routes_registered = true })
