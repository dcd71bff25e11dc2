-- ===== src/Handler/Wasip3/Traced.antt =====
-- src/handler/wasip3.rs: `TraceBody`, which counts the bytes of a response and reports its end.
use leptos_wasi.Prelude.{
  ℕ, ◌+◌, ◌≡◌, refl, ap, ◌∙◌, Bool, true, false, List, [], ◌∷◌, ◌++◌, Option, none, some,
  if◌then◌else◌, ◌==◌, min, Bool-cases, inl, inr,
}
use leptos_wasi.Std.Str.{Bytes}
use leptos_wasi.Std.Codes.{codes}
use leptos_wasi.Handler.Trace.{RequestTraceState, mark_first_byte, finish}
use leptos_wasi.Handler.Trace.Once.{finish_first, finish_again, mark_finished}
use leptos_wasi.Handler.Wasip2.{u64_max}

-- What the inner body answers: a frame of data with so many bytes, a frame of trailers, and so on.
pub data Polled : Type 0 where
  pending trailers ended stream_failed : Polled
  data_frame : ℕ → Polled

-- The `request completed` event.
pub record Report : Type 0 where
  pub status : ℕ
  pub response_bytes : ℕ
  pub cancelled : Bool
  pub error_class : Bytes
  pub first_byte : Option ℕ

-- `TraceBody` without the inner body, with the reports that were made.
pub record TraceBody : Type 0 where
  pub trace : RequestTraceState
  pub status : ℕ
  pub response_bytes : ℕ
  pub reports : List Report

unfoldable pub add_report : Bool → Bytes → TraceBody → Option (Option ℕ) → List Report
add_report cancelled class b none = b.reports
add_report cancelled class b (some first) =
    b.reports
    ++ record {
      status = b.status;
      response_bytes = b.response_bytes;
      cancelled = cancelled;
      error_class = class;
      first_byte = first;
    }
      ∷ []

-- `trace_finish`.
unfoldable pub trace_finish : Bool → Bytes → TraceBody → TraceBody
trace_finish cancelled class b = record b {
  trace = (finish b.trace).1;
  reports = add_report cancelled class b (finish b.trace).0;
}

-- `poll_frame`, after `elapsed` microseconds, given what the inner body answers.
unfoldable pub poll_frame : ℕ → Polled → TraceBody → TraceBody
poll_frame elapsed pending b = b
poll_frame elapsed trailers b = b
poll_frame elapsed ended b = trace_finish false (codes "none") b
poll_frame elapsed stream_failed b = trace_finish false (codes "response_stream") b
poll_frame elapsed (data_frame count) b = if count == 0 then b else record b {
  trace = mark_first_byte elapsed b.trace;
  response_bytes = min (b.response_bytes + count) u64_max;
}

-- `TraceBody::drop`.
unfoldable pub drop_body : TraceBody → TraceBody
drop_body b = trace_finish true (codes "body_dropped") b

-- A body that is polled, and dropped in the end.
unfoldable pub polls : List (ℕ × Polled) → TraceBody → TraceBody
polls [] b = drop_body b
polls ((elapsed, polled) ∷ rest) b = polls rest (poll_frame elapsed polled b)

-- The end that a report should tell of: the bytes before it, whether the body was dropped early, and
-- its class.
unfoldable pub end_of : List (ℕ × Polled) → ℕ → ℕ × Bool × Bytes
end_of [] n = (n, true, codes "body_dropped")
end_of ((elapsed, pending) ∷ rest) n = end_of rest n
end_of ((elapsed, trailers) ∷ rest) n = end_of rest n
end_of ((elapsed, ended) ∷ rest) n = (n, false, codes "none")
end_of ((elapsed, stream_failed) ∷ rest) n = (n, false, codes "response_stream")
end_of ((elapsed, data_frame count) ∷ rest) n =
    end_of rest (if count == 0 then n else min (n + count) u64_max)

trace_finish_again :
    (cancelled : Bool) (class : Bytes) (b : TraceBody)
    → b.trace.finished ≡ true
    → trace_finish cancelled class b ≡ b
unfolding trace_finish add_report
trace_finish_again cancelled class b h =
    ap (λ x. record b { trace = x.1; reports = add_report cancelled class b x.0 })
      (finish_again b.trace h)

-- After the report, nothing more is reported.
polls_finished :
    (ps : List (ℕ × Polled)) (b : TraceBody)
    → b.trace.finished ≡ true
    → (polls ps b).reports ≡ b.reports
unfolding polls poll_frame drop_body
polls_finished [] b h = ap (λ x. x.reports) (trace_finish_again true (codes "body_dropped") b h)
polls_finished ((elapsed, pending) ∷ rest) b h = polls_finished rest b h
polls_finished ((elapsed, trailers) ∷ rest) b h = polls_finished rest b h
polls_finished ((elapsed, ended) ∷ rest) b h =
    ap (λ x. (polls rest x).reports) (trace_finish_again false (codes "none") b h)
    ∙ polls_finished rest b h
polls_finished ((elapsed, stream_failed) ∷ rest) b h =
    ap (λ x. (polls rest x).reports) (trace_finish_again false (codes "response_stream") b h)
    ∙ polls_finished rest b h
polls_finished ((elapsed, data_frame count) ∷ rest) b h = elim (Bool-cases (count == 0)) [
  | inl e ↦ rw (e, polls) (polls_finished rest b h)
  | inr e ↦
      rw (e, polls)
        (polls_finished rest
          (record b {
            trace = mark_first_byte elapsed b.trace;
            response_bytes = min (b.response_bytes + count) u64_max;
          })
          (mark_finished elapsed b.trace ∙ h))
]

-- One report, of this end.
abbrev pub IsReported : ℕ → ℕ × Bool × Bytes → List Report → Type 0
IsReported status end reports =
    (first : Option ℕ) × (reports
      ≡ record {
        status = status;
        response_bytes = end.0;
        cancelled = end.1;
        error_class = end.2;
        first_byte = first;
      }
        ∷ [])

trace_finish_first :
    (cancelled : Bool) (class : Bytes) (b : TraceBody)
    → b.trace.finished ≡ false
    → b.reports ≡ []
    → IsReported b.status
        (b.response_bytes, cancelled, class)
        (trace_finish cancelled class b).reports
      × ((trace_finish cancelled class b).trace.finished ≡ true)
unfolding trace_finish add_report
trace_finish_first cancelled class b h k = rw (finish_first b.trace h) (rw k ((_, refl), refl))

-- However a response body is polled, and dropped in the end: its end is reported exactly once, with
-- the bytes of the data frames before it, and as an end, as a failure of the stream, or as a body that
-- was dropped early, whichever came first.
pub polls-IsReported :
    (ps : List (ℕ × Polled)) (b : TraceBody)
    → b.trace.finished ≡ false
    → b.reports ≡ []
    → IsReported b.status (end_of ps b.response_bytes) (polls ps b).reports
unfolding polls poll_frame drop_body end_of
polls-IsReported [] b h k = (trace_finish_first true (codes "body_dropped") b h k).0
polls-IsReported ((elapsed, pending) ∷ rest) b h k = polls-IsReported rest b h k
polls-IsReported ((elapsed, trailers) ∷ rest) b h k = polls-IsReported rest b h k
polls-IsReported ((elapsed, ended) ∷ rest) b h k =
    let ((first, e), done) = trace_finish_first false (codes "none") b h k in
    (first, polls_finished rest (trace_finish false (codes "none") b) done ∙ e)
polls-IsReported ((elapsed, stream_failed) ∷ rest) b h k =
    let ((first, e), done) = trace_finish_first false (codes "response_stream") b h k in
    (first, polls_finished rest (trace_finish false (codes "response_stream") b) done ∙ e)
polls-IsReported ((elapsed, data_frame count) ∷ rest) b h k = elim (Bool-cases (count == 0)) [
  | inl e ↦ rw (e, polls, end_of) (polls-IsReported rest b h k)
  | inr e ↦
      rw (e, polls, end_of)
        (polls-IsReported rest
          (record b {
            trace = mark_first_byte elapsed b.trace;
            response_bytes = min (b.response_bytes + count) u64_max;
          })
          (mark_finished elapsed b.trace ∙ h) k)
]
