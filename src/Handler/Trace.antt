-- ===== src/Handler/Trace.antt =====
-- src/handler/trace.rs: the counters of a request's trace. The clock is an argument; a report is the
-- `request completed` event, of which the time to the first byte is kept. The counters are relaxed
-- atomics of one thread, so an exchange meets the value that was loaded.
pub mod Once
pub mod Span
mod Tests
use leptos_wasi.Prelude.{
  ℕ, zero, suc, ◌+◌, ◌-◌, ◌^◌, Bool, true, false, List, [], ◌∷◌, Option, none, some, if◌then◌else◌,
  ltb, ◌==◌, min, not,
}

pub record RequestTraceState : Type 0 where
  pub first_byte_micros : ℕ
  pub finished : Bool

-- `u64::try_from(elapsed).unwrap_or(u64::MAX - 1).saturating_add(1)`.
unfoldable pub encoded : ℕ → ℕ
encoded elapsed = min ((if ltb elapsed (2 ^ 64) then elapsed else 2 ^ 64 - 2) + 1) (2 ^ 64 - 1)

-- `mark_first_byte`, after `elapsed` microseconds.
unfoldable pub mark_first_byte : ℕ → RequestTraceState → RequestTraceState
mark_first_byte elapsed s =
    if not (s.first_byte_micros == 0) then s else record s { first_byte_micros = encoded elapsed }

-- `u64::checked_sub(1)`.
abbrev pub checked_pred : ℕ → Option ℕ
checked_pred zero = none
checked_pred (suc n) = some n

-- `finish`: the report, if this call makes it.
unfoldable pub finish : RequestTraceState → Option (Option ℕ) × RequestTraceState
finish s =
    if s.finished
    then (none, s)
    else (some (checked_pred s.first_byte_micros), record s { finished = true })

pub data Event : Type 0 where
  first_byte : ℕ → Event
  done : Event

abbrev pub prepend : {A : Type 0} → Option A → List A → List A
prepend none xs = xs
prepend (some x) xs = x ∷ xs

-- The reports of a sequence of calls, in any order.
unfoldable pub reports : List Event → RequestTraceState → List (Option ℕ)
reports [] s = []
reports (first_byte elapsed ∷ events) s = reports events (mark_first_byte elapsed s)
reports (done ∷ events) s = prepend (finish s).0 (reports events (finish s).1)
