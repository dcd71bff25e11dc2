-- ===== src/Handler/Wasip2/Build.antt =====
-- src/handler/wasip2.rs: `ResponseOutGuard`, `Handler::build_with_config`, `handler_from_request_error`
-- as a whole and `handle_with_context`. A handler is its core, its body and its guard; the guard says
-- whether it still holds the out-parameter.
pub mod Built
pub mod Tests
use leptos_wasi.Prelude.{ℕ, Bool, true, false, List, [], ◌∷◌, Option, none, some, Result, ok, err}
use leptos_wasi.Std.Str.{Bytes}
use leptos_wasi.Std.Codes.{codes}
use leptos_wasi.Http.{Http, Response}
use leptos_wasi.Request
use leptos_wasi.Request.{RequestError}
use leptos_wasi.Request.Parts
use leptos_wasi.Request.Parts.{Parsers, IncomingRequest, request_parts, collect_body}
use leptos_wasi.Handler.Policy.{HandlerConfig, default}
use leptos_wasi.Handler.Plain.{plain_response}
use leptos_wasi.Handler.Core
use leptos_wasi.Handler.Core.{HandlerCore, new, with_preset}
use leptos_wasi.Handler.Wasip2.{Plain, handler_from_request_error}
use leptos_wasi.Handler.Wasip2.Send
use leptos_wasi.Handler.Wasip2.Send.{
  HandlerError, request, outgoing_response, Host, World, send_internal_error, send_response,
}

module _ {S H X C : Type 0} (host : Host S H X C) where
  -- `ResponseOutGuard::drop`.
  unfoldable pub drop_guard : Bool → World S → World S
  drop_guard true w = send_internal_error host w
  drop_guard false w = w

  -- `handle_with_context`, given the response that was rendered; the guard is empty afterwards.
  unfoldable pub handle_with_context :
      {Stream : Type 0}
      → ℕ
      → ℕ
      → Bool
      → Response H Stream
      → World S
      → Option (Result (Unit {0}) (HandlerError X C) × World S)
  handle_with_context usize_max fuel false response w =
      some (err (outgoing_response (codes "response out-parameter")), w)
  handle_with_context usize_max fuel true response w = send_response host usize_max fuel response w

pub record Handler (F H Stream Router : Type 0) : Type 0 where
  pub core : HandlerCore F (Response H Stream) H Router
  pub body : Bytes
  pub response_out : Bool

module _ {S F H Value Stream Router Uri X C : Type 0} (types : Http H Value)
    (parsers : Parsers H Uri) (path : Uri → Bytes) (router : Router) (incoming : Request.Host S)
    (host : Host S H X C) where
  -- `handler_from_request_error` behind its match: the handler with its preset, or the error, with
  -- which the guard is dropped.
  unfoldable pub preset_or_drop :
      HandlerCore F (Response H Stream) H Router
      → Result Plain RequestError
      → World S
      → Result (Handler F H Stream Router) (HandlerError X C) × World S
  preset_or_drop core (ok plain) w = (
    ok (record {
      core =
          with_preset (plain_response types plain.code plain.message) (codes "request_policy") core;
      body = [];
      response_out = true;
    }),
    w,
  )
  preset_or_drop core (err e) w = (err (request e), drop_guard host true w)

  -- The core of a request whose conversion succeeded, and that of `Request::new`.
  unfoldable pub core_of :
      HandlerConfig → Parts.Parts H Uri → HandlerCore F (Response H Stream) H Router
  core_of config parts = new router parts.method (path parts.uri) parts.headers config

  unfoldable pub default_core : HandlerConfig → HandlerCore F (Response H Stream) H Router
  default_core config = new router Core.get (codes "/") types.empty config

  unfoldable pub on_body :
      HandlerConfig
      → Parts.Parts H Uri
      → List Send.Act
      → Option (Result Bytes RequestError × S)
      → Option (Result (Handler F H Stream Router) (HandlerError X C) × World S)
  on_body config parts acts none = none
  on_body config parts acts (some (ok body, s)) = some (
    ok (record { core = core_of config parts; body = body; response_out = true }),
    record { host = s; acts = acts },
  )
  on_body config parts acts (some (err e, s)) = some (
      preset_or_drop (core_of config parts) (handler_from_request_error e config)
        (record { host = s; acts = acts }))

  unfoldable pub on_request_parts :
      ℕ
      → ℕ
      → HandlerConfig
      → Request.Method
      → Result (Parts.Parts H Uri) RequestError
      → World S
      → Option (Result (Handler F H Stream Router) (HandlerError X C) × World S)
  on_request_parts usize_max fuel config method (err e) w =
      some (preset_or_drop (default_core config) (handler_from_request_error e config) w)
  on_request_parts usize_max fuel config method (ok parts) w = on_body config parts w.acts (
      collect_body types parsers incoming usize_max fuel parts.headers method
        config.max_request_body_size config.request_body_timeout_ns w.host)

  -- `Handler::build_with_config`, with fuel for the loop over the body.
  unfoldable pub build_with_config :
      ℕ
      → ℕ
      → HandlerConfig
      → IncomingRequest
      → World S
      → Option (Result (Handler F H Stream Router) (HandlerError X C) × World S)
  build_with_config usize_max fuel config r w =
      on_request_parts usize_max fuel config r.method (request_parts parsers types.empty r) w

  -- `Handler::build`.
  unfoldable pub build :
      ℕ
      → ℕ
      → IncomingRequest
      → World S
      → Option (Result (Handler F H Stream Router) (HandlerError X C) × World S)
  build usize_max fuel r w = build_with_config usize_max fuel default r w
