-- ===== src/Handler/Wasip3.antt =====
-- src/handler/wasip3.rs: taking in a Preview 3 request, and its errors. The collection of a limited
-- body and the race with its expiry are those of the http-body-util and futures crates, and parameters.
pub mod Traced
pub mod Intake
pub mod Answer
mod Tests
use leptos_wasi.Prelude.{ℕ, List, [], ◌∷◌, Option, none, some, Result, ok, err, ◌>>=◌}
use leptos_wasi.Std.Str.{Bytes}
use leptos_wasi.Std.Codes.{codes}
use leptos_wasi.Http.{Http, Response, content_length}
use leptos_wasi.Request.Parts.{Parts}
use leptos_wasi.Handler.Policy.{
  HandlerConfig, default, RequestPolicyError, body_too_large, body_read_timeout,
  validate_content_length,
}
use leptos_wasi.Handler.Plain.{plain_response}
use leptos_wasi.Handler.Core.{HandlerCore, new, with_preset}
use leptos_wasi.Handler.Wasip2.{policy_response}

-- `HandlerError`; `C` are the codes of the host, and `X` the errors of response streams.
pub data HandlerError (C X : Type 0) : Type 0 where
  wasi : C → HandlerError C X
  response_stream : X → HandlerError C X

-- `into_error_code`, given `ErrorCode::InternalError(None)`.
unfoldable pub into_error_code : {C X : Type 0} → C → HandlerError C X → C
into_error_code internal_error (wasi code) = code
into_error_code internal_error (response_stream x) = internal_error

pub data Ingested (P : Type 0) : Type 0 where
  collected : P → Bytes → Ingested P
  refused : P → RequestPolicyError → Ingested P

-- The errors of a limited body: the limit was exceeded, or the body failed, with a code of the host
-- or otherwise.
pub data BodyError (C : Type 0) : Type 0 where
  length_limit : BodyError C
  body_failed : Option C → BodyError C

-- `Either` of the collection and the expiry.
pub data Raced (C : Type 0) : Type 0 where
  left : Result Bytes (BodyError C) → Raced C
  right : Raced C

-- `collect` is `Limited::new(body, limit).collect()`; `select` races it against the budget.
pub record Collector (S C : Type 0) : Type 0 where
  pub collect : ℕ → S → Result Bytes (BodyError C)
  pub select : ℕ → ℕ → S → Raced C

-- `downcast(…).map_or(…)`.
abbrev pub code_or : {C : Type 0} → C → Option C → C
code_or internal_error none = internal_error
code_or internal_error (some code) = code

abbrev pub unwrap_or_zero : Option ℕ → ℕ
unwrap_or_zero none = 0
unwrap_or_zero (some n) = n

module _ {P C X : Type 0} (internal_error : C) where
  -- The last match of `ingest`.
  unfoldable pub on_collected :
      HandlerConfig → P → Result Bytes (BodyError C) → Result (Ingested P) (HandlerError C X)
  on_collected config parts (ok body) = ok (collected parts body)
  on_collected config parts (err length_limit) =
      ok (refused parts (body_too_large config.max_request_body_size))
  on_collected config parts (err (body_failed code)) = err (wasi (code_or internal_error code))

  unfoldable pub on_raced : HandlerConfig → P → Raced C → Result (Ingested P) (HandlerError C X)
  on_raced config parts (left result) = on_collected config parts result
  on_raced config parts right =
      ok (refused parts (body_read_timeout (unwrap_or_zero config.request_body_timeout_ns)))

  -- From `Limited::new` on; `expiry` is the budget of the expiry future.
  unfoldable pub on_validated :
      {S : Type 0}
      → Collector S C
      → HandlerConfig
      → Option ℕ
      → P
      → S
      → Result (Option ℕ) RequestPolicyError
      → Result (Ingested P) (HandlerError C X)
  on_validated collector config expiry parts s (err policy) = ok (refused parts policy)
  on_validated collector config none parts s (ok declared) =
      on_collected config parts (collector.collect config.max_request_body_size s)
  on_validated collector config (some budget) parts s (ok declared) =
      on_raced config parts (collector.select budget config.max_request_body_size s)

module _ {S H Value Uri C X : Type 0} (types : Http H Value) (usize_max : ℕ) (internal_error : C)
    (collector : Collector S C) where
  unfoldable pub ingest :
      Parts H Uri
      → S
      → HandlerConfig
      → Option ℕ
      → Result (Ingested (Parts H Uri)) (HandlerError C X)
  ingest parts s config expiry = on_validated internal_error collector config expiry parts s (
      validate_content_length types.to_str usize_max (types.get_all content_length parts.headers)
        config.max_request_body_size)

module _ {F H Value Stream Router Uri : Type 0} (types : Http H Value) (path : Uri → Bytes)
    (router : Router) where
  -- `Handler::from_ingested`: the core of the handler and its body.
  unfoldable pub from_ingested :
      HandlerConfig → Ingested (Parts H Uri) → HandlerCore F (Response H Stream) H Router × Bytes
  from_ingested config (collected parts body) =
      (new router parts.method (path parts.uri) parts.headers config, body)
  from_ingested config (refused parts policy) = (
    with_preset
        (plain_response types (policy_response policy).code (policy_response policy).message)
        (codes "request_policy") (new router parts.method (path parts.uri) parts.headers config),
    [],
  )

module _ {S F H Value Stream Router Uri C X : Type 0} (types : Http H Value) (path : Uri → Bytes)
    (router : Router) (usize_max : ℕ) (internal_error : C) (collector : Collector S C) where
  -- `Handler::build_with_config`, and `Handler::build`.
  unfoldable pub build_with_config :
      Parts H Uri
      → S
      → HandlerConfig
      → Result (HandlerCore F (Response H Stream) H Router × Bytes) (HandlerError C X)
  build_with_config parts s config =
      ingest types usize_max internal_error collector parts s config config.request_body_timeout_ns
      >>= λ ingested. ok (from_ingested types path router config ingested)

  unfoldable pub build :
      Parts H Uri
      → S
      → Result (HandlerCore F (Response H Stream) H Router × Bytes) (HandlerError C X)
  build parts s = build_with_config parts s default
