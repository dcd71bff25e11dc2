-- ===== src/Handler/Wasip2.antt =====
-- src/handler/wasip2.rs: what a failed request conversion is answered with, and `write_all`, which
-- writes one chunk of the response. The host's output stream and the executor are parameters.
pub mod Rejected
pub mod Written
pub mod Kept
pub mod Send
pub mod Build
mod Tests
use leptos_wasi.Prelude.{
  ℕ, zero, suc, ◌+◌, ◌-◌, Bool, true, false, List, [], ◌∷◌, ◌++◌, Option, none, some, Result, ok,
  err, if◌then◌else◌, ltb, ◌==◌, is_empty, length, min, take, drop,
}
use leptos_wasi.Std.Str.{Bytes}
use leptos_wasi.Std.Codes.{codes}
use leptos_wasi.Handler.Trace.{RequestTraceState, mark_first_byte}
use leptos_wasi.Handler.Policy.{HandlerConfig, RequestPolicyError, status}
use leptos_wasi.Request.{
  RequestError, http, wasi_io, body_too_large, body_read_timeout, body_already_consumed,
  body_stream_unavailable, invalid_headers, policy, client_status,
}

-- The preset of a rejected request: `plain_response` with this status and this text.
pub record Plain : Type 0 where
  pub code : ℕ
  pub message : Bytes

-- src/handler/policy.rs: `policy_response`.
unfoldable pub policy_message : RequestPolicyError → Bytes
policy_message (RequestPolicyError.body_too_large limit) = codes "request body too large"
policy_message (RequestPolicyError.body_read_timeout nanoseconds) = codes "request body timed out"
policy_message RequestPolicyError.invalid_content_length = codes "invalid Content-Length"
policy_message RequestPolicyError.conflicting_content_length = codes "invalid Content-Length"

unfoldable pub policy_response : RequestPolicyError → Plain
policy_response error = record { code = status error; message = policy_message error }

-- The arm `error => …`: a preset for the client, or the error.
unfoldable pub client_rejection : RequestError → Option ℕ → Result Plain RequestError
client_rejection error (some code) = ok (record { code = code; message = codes "invalid request" })
client_rejection error none = err error

-- `handler_from_request_error`: the preset of the handler that is built, or the error.
unfoldable pub handler_from_request_error : RequestError → HandlerConfig → Result Plain RequestError
handler_from_request_error (body_too_large limit) config =
    ok (policy_response (RequestPolicyError.body_too_large config.max_request_body_size))
handler_from_request_error (body_read_timeout nanoseconds) config =
    ok (policy_response (RequestPolicyError.body_read_timeout nanoseconds))
handler_from_request_error (policy error) config = ok (policy_response error)
handler_from_request_error http config = client_rejection http (client_status http)
handler_from_request_error wasi_io config = client_rejection wasi_io (client_status wasi_io)
handler_from_request_error body_already_consumed config =
    client_rejection body_already_consumed (client_status body_already_consumed)
handler_from_request_error body_stream_unavailable config =
    client_rejection body_stream_unavailable (client_status body_stream_unavailable)
handler_from_request_error invalid_headers config =
    client_rejection invalid_headers (client_status invalid_headers)

-- The output stream: how much it takes now, waiting for it on the executor, and a write; and the clock
-- of the trace, in microseconds since the request.
pub record Output (S E : Type 0) : Type 0 where
  pub check_write : S → Result ℕ E × S
  pub wait : S → Result (Unit {0}) E × S
  pub write : Bytes → S → Result (Unit {0}) E × S
  pub elapsed : S → ℕ

-- What is left to write, the count `response_bytes`, the trace, and the host.
pub record Writing (S : Type 0) : Type 0 where
  pub bytes : Bytes
  pub response_bytes : ℕ
  pub trace : RequestTraceState
  pub host : S

abbrev pub u64_max : ℕ
u64_max = 0xffffffffffffffff

pub data Step (S E : Type 0) : Type 0 where
  fail : E → Writing S → Step S E
  next : Writing S → Step S E

module _ {S E : Type 0} (output : Output S E) (usize_max : ℕ) where
  -- Behind `WaitPoll::new(output.subscribe()).await?`.
  unfoldable pub on_wait : Writing S → Result (Unit {0}) E × S → Step S E
  on_wait w (err e, host) = fail e (record w { host = host })
  on_wait w (ok _, host) = next (record w { host = host })

  -- `if count != 0 { trace_first_byte(trace) }`.
  unfoldable pub traced : ℕ → S → RequestTraceState → RequestTraceState
  traced count host trace =
      if count == 0 then trace else mark_first_byte (output.elapsed host) trace

  -- Behind `output.write(&bytes[..count])?`.
  unfoldable pub on_write : ℕ → Writing S → Result (Unit {0}) E × S → Step S E
  on_write count w (err e, host) = fail e (record w { host = host })
  on_write count w (ok _, host) = next (record {
    bytes = drop count w.bytes;
    response_bytes = min (w.response_bytes + count) u64_max;
    trace = traced count host w.trace;
    host = host;
  })

  -- `usize::try_from(capacity).unwrap_or(usize::MAX).min(bytes.len())`.
  unfoldable pub chunk : ℕ → Bytes → ℕ
  chunk capacity bytes = min (if ltb usize_max capacity then usize_max else capacity) (length bytes)

  unfoldable pub on_capacity : Writing S → Result ℕ E × S → Step S E
  on_capacity w (err e, host) = fail e (record w { host = host })
  on_capacity w (ok capacity, host) =
      if capacity == 0
      then on_wait (record w { host = host }) (output.wait host)
      else on_write (chunk capacity w.bytes) (record w { host = host })
          (output.write (take (chunk capacity w.bytes) w.bytes) host)

  unfoldable pub after_step :
      Step S E
      → (Writing S → Option (Result (Unit {0}) E × Writing S))
      → Option (Result (Unit {0}) E × Writing S)
  after_step (fail e w) rest = some (err e, w)
  after_step (next w) rest = rest w

  -- The loop of `write_all`, with fuel for its rounds; `none` means that the fuel ran out.
  unfoldable pub write_all : ℕ → Writing S → Option (Result (Unit {0}) E × Writing S)
  write_all zero w = if is_empty w.bytes then some (ok tt, w) else none
  write_all (suc fuel) w =
      let rest = after_step (on_capacity w (output.check_write w.host)) (write_all fuel) in
      if is_empty w.bytes then some (ok tt, w) else rest
