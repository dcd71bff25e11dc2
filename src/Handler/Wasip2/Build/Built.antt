-- ===== src/Handler/Wasip2/Build/Built.antt =====
-- Building a handler ends, and what it is then: a handler, or an answer to the client, or an error.
use leptos_wasi.Prelude.{ℕ, ◌≤◌, ◌≡◌, true, List, [], Result, ok, err, length}
use leptos_wasi.Std.Str.{Bytes}
use leptos_wasi.Std.Codes.{codes}
use leptos_wasi.Http.{Http, Response}
use leptos_wasi.Request
use leptos_wasi.Request.{RequestError}
use leptos_wasi.Request.Parts
use leptos_wasi.Request.Parts.{Parsers}
use leptos_wasi.Handler.Plain.{plain_response}
use leptos_wasi.Handler.Core.{unclaimed, preset, HandlerCore}
use leptos_wasi.Handler.Wasip2.{Plain}
use leptos_wasi.Handler.Wasip2.Rejected.{IsHostFault, IsClientCode}
use leptos_wasi.Handler.Wasip2.Send
use leptos_wasi.Handler.Wasip2.Send.{HandlerError, request, Host, World}
use leptos_wasi.Handler.Wasip2.Send.Acts.{InternalActs}
use leptos_wasi.Handler.Wasip2.Build.{Handler}

abbrev IsWithin : ℕ → Result Bytes RequestError → Type 0
IsWithin m (ok body) = length body ≤ m
IsWithin m (err e) = Unit {0}

module _ {S F H Value Stream Router Uri X C : Type 0} (types : Http H Value)
    (parsers : Parsers H Uri) (path : Uri → Bytes) (router : Router) (incoming : Request.Host S)
    (host : Host S H X C) where
  -- How building ends. The log of what was done to the out-parameter is untouched in the first two
  -- cases, where the handler still holds it; in the last it was answered with an internal error, or
  -- the host refused that.
  pub data IsBuilt (limit : ℕ) (before : List Send.Act)
      : Result (Handler F H Stream Router) (HandlerError X C) × World S → Type 0 where
    built :
        (core : HandlerCore F (Response H Stream) H Router) (body : Bytes) (w : World S)
        → core.selection ≡ unclaimed
        → length body ≤ limit
        → w.acts ≡ before
        → IsBuilt limit before (ok (record { core = core; body = body; response_out = true }), w)
    rejected :
        (core : HandlerCore F (Response H Stream) H Router) (plain : Plain) (w : World S)
        → IsClientCode plain.code
        → core.selection
          ≡ preset (plain_response types plain.code plain.message) (codes "request_policy")
        → w.acts ≡ before
        → IsBuilt limit before (ok (record { core = core; body = []; response_out = true }), w)
    host_fault :
        (e : RequestError) (w : World S)
        → IsHostFault e
        → InternalActs host before w
        → IsBuilt limit before (err (request e), w)
