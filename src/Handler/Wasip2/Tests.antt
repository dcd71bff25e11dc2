-- ===== src/Handler/Wasip2/Tests.antt =====
-- A stream that takes three bytes at a time, after it has asked to wait for a number of times.
use leptos_wasi.Prelude.{
  ℕ, zero, suc, ◌-◌, ◌≡◌, ◌⊎◌, refl, false, [], ◌++◌, none, some, Result, ok, err, arith, ◌<◌,
}
use leptos_wasi.Std.Str.{Bytes}
use leptos_wasi.Std.Codes.{codes}
use leptos_wasi.Handler.Trace.{RequestTraceState, mark_first_byte, encoded}
use leptos_wasi.Handler.Policy.{HandlerConfig}
use leptos_wasi.Request.{body_too_large}
use leptos_wasi.Handler.Wasip2.{
  Plain, handler_from_request_error, Output, Writing, on_wait, on_write, traced, chunk, on_capacity,
  after_step, write_all,
}
use leptos_wasi.Handler.Wasip2.Written.{IsSink, IsWritten, write_all-IsWritten}
use leptos_wasi.Handler.Wasip2.Rejected.{
  IsClientCode, IsHostFault, handler_from_request_error_answers,
}

abbrev capacity : ℕ → Result ℕ (Unit {0})
capacity zero = ok 3
capacity (suc n) = ok 0

abbrev by_three : Output (Bytes × ℕ) (Unit {0})
by_three = record {
  check_write = λ s. (capacity s.1, s);
  wait = λ s. (ok tt, (s.0, s.1 - 1));
  write = λ b s. (ok tt, (s.0 ++ b, s.1));
  elapsed = λ s. 8 - s.1;
}

asks_less : (n : ℕ) → capacity n ≡ ok 0 → n - 1 < n
asks_less zero h = absurd (ground arith)
asks_less (suc n) h = omega arith

by_three-IsSink : IsSink by_three (λ s. s.0) (λ s. s.1)
by_three-IsSink = record {
  check_keeps = λ s. refl;
  check_rank = λ s. omega arith;
  wait_keeps = λ s. refl;
  wait_rank = λ s h. asks_less s.1 h;
  write_ok = λ b s h. refl;
  write_err = λ b s e h. absurd cc;
  write_rank = λ b s. omega arith;
}

abbrev fresh : RequestTraceState
fresh = record { first_byte_micros = 0; finished = false }

abbrev start : Writing (Bytes × ℕ)
start = record { bytes = codes "leptos_"; response_bytes = 0; trace = fresh; host = ([], 2) }

run : Unit {0}
unfolding write_all after_step on_capacity on_wait on_write traced chunk mark_first_byte encoded
run = tt

writes :
    write_all by_three 100 9 start
    ≡ some (
      ok tt,
      record {
        bytes = [];
        response_bytes = 7;
        trace = mark_first_byte 8 fresh;
        host = (codes "leptos_", 0);
      },
    )
unfolding run
writes = refl

write_all-IsWritten_example :
    (x : Result (Unit {0}) (Unit {0}) × Writing (Bytes × ℕ)) × (write_all by_three 100 9 start
      ≡ some x)
    × IsWritten by_three 100 (λ s. s.0) (λ s. s.1) by_three-IsSink (omega arith) start x
write_all-IsWritten_example =
    write_all-IsWritten by_three 100 (λ s. s.0) (λ s. s.1) by_three-IsSink (omega arith) 9 start
      (omega arith)

abbrev small : HandlerConfig
small = record { max_request_body_size = 10; request_body_timeout_ns = none }

abbrev large : HandlerConfig
large = record { max_request_body_size = 1000; request_body_timeout_ns = some 5 }

handler_from_request_error_answers_example :
    ((response : Plain) × (handler_from_request_error (body_too_large 10) small ≡ ok response)
      × (handler_from_request_error (body_too_large 10) large ≡ ok response)
      × IsClientCode response.code)
    ⊎ (IsHostFault (body_too_large 10)
        × (handler_from_request_error (body_too_large 10) small ≡ err (body_too_large 10)))
handler_from_request_error_answers_example =
    handler_from_request_error_answers (body_too_large 10) small large
