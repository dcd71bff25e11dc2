-- ===== src/Handler/Wasip2/Send.antt =====
-- src/handler/wasip2.rs: `send_response`, `send_internal_error`, `ResponseOutGuard` and
-- `handle_with_context`. The host's resources are a parameter, in the record `Host`; what is done to
-- the out-parameter, the body and the trace is kept in a log.
pub mod Acts
pub mod Transferred
pub mod Sent
pub mod Tests
use leptos_wasi.Prelude.{
  ℕ, zero, suc, Bool, true, false, List, [], ◌∷◌, ◌++◌, Option, none, some, Result, ok, err,
  if◌then◌else◌, length,
}
use leptos_wasi.Std.Str.{Bytes}
use leptos_wasi.Std.Codes.{codes}
use leptos_wasi.Executor.{ExecutorError, run_until_canceled, pollable_canceled}
use leptos_wasi.Http.{Body, sync, async, Response}
use leptos_wasi.Request.{RequestError}
use leptos_wasi.Handler.Trace.{RequestTraceState}
use leptos_wasi.Handler.Wasip2.{Output, Writing, write_all}

pub data StreamError : Type 0 where
  last_operation_failed stream_closed : StreamError

-- `HandlerError`; `X` are the errors of response streams, and `C` the codes of the host.
pub data HandlerError (X C : Type 0) : Type 0 where
  request : RequestError → HandlerError X C
  response : HandlerError X C
  response_stream : X → HandlerError X C
  wasi_stream : StreamError → HandlerError X C
  wasi_response_body : C → HandlerError X C
  outgoing_response : Bytes → HandlerError X C
  executor : ExecutorError → HandlerError X C

-- The host: a Boolean answer says that a call was not refused. `next` polls the stream of the body,
-- and `elapsed` is the clock of the trace.
pub record Host (S H X C : Type 0) : Type 0 where
  pub from_list : H → S → Bool × S
  pub append : Bytes → Bytes → S → Bool × S
  pub set_status_code : ℕ → S → Bool × S
  pub body : S → Bool × S
  pub write_stream : S → Bool × S
  pub check_write : S → Result ℕ StreamError × S
  pub wait : S → Result (Unit {0}) ExecutorError × S
  pub write : Bytes → S → Result (Unit {0}) StreamError × S
  pub blocking_write_and_flush : Bytes → S → Bool × S
  pub flush : S → Result (Unit {0}) StreamError × S
  pub next : S → Option (Result Bytes X) × S
  pub finish : S → Result (Unit {0}) C × S
  pub elapsed : S → ℕ

-- The out-parameter is set to a response with this status; the output stream is dropped; the
-- outgoing body is finished; the trace is finished, with the status, the bytes, whether the client
-- went away, and the class of the error.
pub data Act : Type 0 where
  committed : ℕ → Act
  closed finished : Act
  reported : ℕ → ℕ → Bool → Bytes → Act

pub record World (S : Type 0) : Type 0 where
  pub host : S
  pub acts : List Act

unfoldable pub act : {S : Type 0} → Act → World S → World S
act a w = record w { acts = w.acts ++ a ∷ [] }

-- A call of the host.
abbrev pub call : {S A : Type 0} → (S → A × S) → World S → A × World S
call f w = ((f w.host).0, record w { host = (f w.host).1 })

abbrev pub fails_with : {A E F : Type 0} → (E → F) → Result A E → Result A F
fails_with f (ok a) = ok a
fails_with f (err e) = err (f e)

abbrev pub refused_with : {E : Type 0} → E → Bool → Result (Unit {0}) E
refused_with e true = ok tt
refused_with e false = err e

-- `?` on what a call answers.
unfoldable pub and_next :
    {W E : Type 0}
    → Result (Unit {0}) E × W
    → (W → Result (Unit {0}) E × W)
    → Result (Unit {0}) E × W
and_next (err e, w) k = (err e, w)
and_next (ok _, w) k = k w

-- `matches!(&error, …)` in `send_response`.
unfoldable pub is_cancellation : {X C : Type 0} → HandlerError X C → Bool
is_cancellation (wasi_stream stream_closed) = true
is_cancellation (executor pollable_canceled) = true
is_cancellation (executor run_until_canceled) = true
is_cancellation e = false

unfoldable pub error_class : {X C : Type 0} → HandlerError X C → Bytes
error_class (response_stream x) = codes "response_stream"
error_class (wasi_stream e) = codes "wasi_stream"
error_class (executor e) = codes "executor"
error_class e = codes "response_transfer"

abbrev pub dropped_response_status : ℕ
dropped_response_status = 500

abbrev pub dropped_response_body : Bytes
dropped_response_body = codes "internal server error"

-- The trace of a request of which nothing is reported yet.
abbrev pub new_trace : RequestTraceState
new_trace = record { first_byte_micros = 0; finished = false }

module _ {S H X C : Type 0} (host : Host S H X C) where
  -- `send_internal_error` behind the three calls that may be refused.
  unfoldable pub commit_internal : World S → World S
  commit_internal w =
      let set = act (committed dropped_response_status) w in
      let closing = act closed (call (host.blocking_write_and_flush dropped_response_body) set).1 in
      act finished (call host.finish closing).1

  unfoldable pub on_internal : Result (Unit {0}) (Unit {0}) × World S → World S
  on_internal (ok _, w) = commit_internal w
  on_internal (err _, w) = w

  unfoldable pub internal_setup : World S → Result (Unit {0}) (Unit {0}) × World S
  internal_setup w =
      and_next
        (let a = call (host.set_status_code dropped_response_status) w in
          (refused_with tt a.0, a.1))
        λ w.
          and_next (let a = call host.body w in (refused_with tt a.0, a.1))
            λ w. let a = call host.write_stream w in (refused_with tt a.0, a.1)

  unfoldable pub send_internal_error : World S → World S
  send_internal_error w =
      let typed =
        (call (host.append (codes "content-type") (codes "text/plain; charset=utf-8")) w).1 in
      let safe = (call (host.append (codes "x-content-type-options") (codes "nosniff")) typed).1 in
      on_internal (internal_setup safe)

  -- The closure behind `prepared`.
  unfoldable pub prepare : ℕ → H → World S → Result (Unit {0}) (HandlerError X C) × World S
  prepare status headers w =
      and_next (let a = call (host.from_list headers) w in (refused_with response a.0, a.1)) λ w.
        and_next
          (let a = call (host.set_status_code status) w in
            (refused_with (outgoing_response (codes "status")) a.0, a.1))
          λ w.
            and_next
              (let a = call host.body w in
                (refused_with (outgoing_response (codes "body")) a.0, a.1))
              λ w.
                let a = call host.write_stream w in
                (refused_with (outgoing_response (codes "body writer")) a.0, a.1)

  -- The output stream that `write_all` writes to.
  unfoldable pub output : Output (World S) (HandlerError X C)
  output = record {
    check_write = λ w. (let a = call host.check_write w in (fails_with wasi_stream a.0, a.1));
    wait = λ w. (let a = call host.wait w in (fails_with executor a.0, a.1));
    write = λ bytes w. (let a = call (host.write bytes) w in (fails_with wasi_stream a.0, a.1));
    elapsed = λ w. host.elapsed w.host;
  }

  -- Whether a transfer goes well, with the count of bytes and the host; `none` is out of fuel.
  abbrev pub Transfer : Type 0
  Transfer = Option (Result (Unit {0}) (HandlerError X C) × Writing (World S))

  abbrev pub and_then : Transfer → (Writing (World S) → Transfer) → Transfer
  and_then none k = none
  and_then (some (err e, t)) k = some (err e, t)
  and_then (some (ok _, t)) k = k t

  -- One item of the stream: the loop of `Body::Async`.
  unfoldable pub on_item :
      Writing (World S)
      → Option (Result Bytes X) × World S
      → (Writing (World S) → Transfer)
      → (Writing (World S) → Transfer)
      → Transfer
  on_item t (none, w) write rest = some (ok tt, record t { host = w })
  on_item t (some (err x), w) write rest = some (err (response_stream x), record t { host = w })
  on_item t (some (ok bytes), w) write rest =
      and_then (write (record t { bytes = bytes; host = w })) rest

  unfoldable pub transfer_stream : ℕ → ℕ → Writing (World S) → Transfer
  transfer_stream usize_max zero t = none
  transfer_stream usize_max (suc fuel) t =
      on_item t (call host.next t.host) (write_all output usize_max fuel)
        (transfer_stream usize_max fuel)

  unfoldable pub transfer_body :
      {Stream : Type 0} → ℕ → ℕ → Body Stream → Writing (World S) → Transfer
  transfer_body usize_max fuel (sync bytes) t =
      write_all output usize_max fuel (record t { bytes = bytes })
  transfer_body usize_max fuel (async stream) t = transfer_stream usize_max fuel t

  -- `output.flush()?` and the wait for it.
  unfoldable pub flush_and_wait : Writing (World S) → Transfer
  flush_and_wait t =
      let done =
        and_next (let a = call host.flush t.host in (fails_with wasi_stream a.0, a.1))
          λ w. let a = call host.wait w in (fails_with executor a.0, a.1) in
      some (done.0, record t { host = done.1 })

  -- The match on `transfer` and `finish`.
  unfoldable pub conclude :
      ℕ
      → ℕ
      → Result (Unit {0}) (HandlerError X C)
      → Result (Unit {0}) C × World S
      → Result (Unit {0}) (HandlerError X C) × World S
  conclude status bytes (err e) (_, w) =
      (err e, act (reported status bytes (is_cancellation e) (error_class e)) w)
  conclude status bytes (ok _) (ok _, w) =
      (ok tt, act (reported status bytes false (codes "none")) w)
  conclude status bytes (ok _) (err c, w) =
      (err (wasi_response_body c), act (reported status bytes false (codes "response_finish")) w)

  -- From `drop(output)` on.
  unfoldable pub finish_sending :
      ℕ → Transfer → Option (Result (Unit {0}) (HandlerError X C) × World S)
  finish_sending status none = none
  finish_sending status (some (result, t)) =
      let closing = act closed t.host in
      let answer = call host.finish closing in
      some (conclude status t.response_bytes result (answer.0, act finished answer.1))

  unfoldable pub on_prepared :
      {Stream : Type 0}
      → ℕ
      → ℕ
      → ℕ
      → Body Stream
      → Result (Unit {0}) (HandlerError X C) × World S
      → Option (Result (Unit {0}) (HandlerError X C) × World S)
  on_prepared usize_max fuel status body (err e, w) =
      some (err e, act (reported 500 0 false (codes "response_setup")) (send_internal_error w))
  on_prepared usize_max fuel status body (ok _, w) = finish_sending status (
      and_then
        (transfer_body usize_max fuel body (record {
          bytes = [];
          response_bytes = 0;
          trace = new_trace;
          host = act (committed status) w;
        }))
        flush_and_wait)

  -- `send_response`, with fuel for the rounds of its loops; `none` means that the fuel ran out.
  unfoldable pub send_response :
      {Stream : Type 0}
      → ℕ
      → ℕ
      → Response H Stream
      → World S
      → Option (Result (Unit {0}) (HandlerError X C) × World S)
  send_response usize_max fuel r w =
      on_prepared usize_max fuel r.status r.body (prepare r.status r.headers w)
