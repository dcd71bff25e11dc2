-- ===== src/Handler/Core/Calls.antt =====
-- src/handler/core.rs: chains of builder calls.
use leptos_wasi.Prelude.{List, [], ◌∷◌, Option, Result, ok, ◌>>=◌}
use leptos_wasi.Std.Str.{Bytes}
use leptos_wasi.Http.{Http, Response}
use leptos_wasi.Handler.Core.{HandlerCore, RegistrationError, with_server_fn, generate_routes}
use leptos_wasi.Handler.Core.Files.{StaticRequest, PrefixUri, static_files_handler_with}

-- A call of the builder.
pub data Call (F H Value Stream Router : Type 0) : Type 0 where
  serve : Bytes → Bytes → F → Call F H Value Stream Router
  assets :
      Option PrefixUri
      → (StaticRequest Value → Option (Response H Stream))
      → Call F H Value Stream Router
  routes : Result Router RegistrationError → Call F H Value Stream Router

module _ {F H Value Stream Router : Type 0} (map : Http H Value) where
  unfoldable pub call :
      Call F H Value Stream Router
      → HandlerCore F (Response H Stream) H Router
      → Result (HandlerCore F (Response H Stream) H Router) RegistrationError
  call (serve fn_method fn_path service) self = ok (with_server_fn fn_method fn_path service self)
  call (assets uri handler) self = static_files_handler_with map uri handler self
  call (routes table) self = generate_routes table self

  -- A chain of calls, each with `?`.
  unfoldable pub calls :
      List (Call F H Value Stream Router)
      → HandlerCore F (Response H Stream) H Router
      → Result (HandlerCore F (Response H Stream) H Router) RegistrationError
  calls [] self = ok self
  calls (c ∷ cs) self = call c self >>= λ self'. calls cs self'
