-- ===== src/Handler/Wasip3/Answer.antt =====
-- src/handler/wasip3.rs: `Handler::handle_with_context`, from the rendering to the response of the host.
-- The conversion by the host bindings, `http_into_wasi_response`, is a parameter.
mod Refused
mod Tests
use leptos_wasi.Prelude.{ℕ, Bool, false, List, [], Result, ok, err}
use leptos_wasi.Std.Str.{Bytes}
use leptos_wasi.Http.{Http, Response}
use leptos_wasi.Handler.Core.{HandlerCore}
use leptos_wasi.Handler.Render.{App, render}
use leptos_wasi.Handler.Wasip3.{HandlerError, wasi}
use leptos_wasi.Handler.Wasip3.Traced.{TraceBody}

-- `TraceBody::new` with the trace of a request that has just begun, of which nothing is reported yet.
unfoldable pub new_body : ℕ → TraceBody
new_body status = record {
  trace = record { first_byte_micros = 0; finished = false };
  status = status;
  response_bytes = 0;
  reports = [];
}

-- `.map_err(HandlerError::Wasi)`.
abbrev pub wasi_error : {R C X : Type 0} → Result R C → Result R (HandlerError C X)
wasi_error (ok response) = ok response
wasi_error (err code) = err (wasi code)

module _ {F H Value Stream Router R C X : Type 0} (types : Http H Value)
    (app : App F H Stream Router) (accepts_html : H → Bool) (feature : Bool)
    (http_into_wasi_response : Response H Stream → TraceBody → Result R C) where
  -- The response with its body traced; the frames of the body are those of the rendered one.
  unfoldable pub convert : Response H Stream → Result R (HandlerError C X)
  convert response = wasi_error (http_into_wasi_response response (new_body response.status))

  unfoldable pub handle_with_context :
      Bool → Bytes → HandlerCore F (Response H Stream) H Router → Result R (HandlerError C X)
  handle_with_context islands body core =
      convert (render types app accepts_html feature islands body core)
