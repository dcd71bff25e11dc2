-- ===== src/Request.antt =====
-- src/request.rs, module `p2`: collecting the body of a Preview 2 request within its budgets. The
-- host (the body stream, the timer, the resources) is a parameter, in the record `Host`; its state
-- is `S`. An `http::Error` and the payload of a `StreamError` are not kept.
pub mod Bounded
pub mod Ends
pub mod Parts
pub mod Stream
mod Tests
use leptos_wasi.Prelude.{
  ℕ, zero, suc, ◌+◌, Bool, true, false, not, List, [], ◌∷◌, ◌++◌, Option, none, some, Result, ok,
  err, if◌then◌else◌, ltb, leb, ◌==◌, is_empty, length, min,
}
use leptos_wasi.Std.Str.{Bytes}
use leptos_wasi.Handler.Policy.{RequestPolicyError, invalid_content_length}

pub data RequestError : Type 0 where
  http wasi_io : RequestError
  body_too_large : ℕ → RequestError
  body_read_timeout : ℕ → RequestError
  body_already_consumed body_stream_unavailable invalid_headers : RequestError
  policy : RequestPolicyError → RequestError

unfoldable pub client_status : RequestError → Option ℕ
client_status http = some 400
client_status wasi_io = some 400
client_status body_already_consumed = none
client_status body_stream_unavailable = none
client_status (body_too_large limit) = none
client_status (body_read_timeout nanoseconds) = none
client_status invalid_headers = none
client_status (policy e) = none

-- The host's `Method`.
pub data Method : Type 0 where
  connect delete get head options patch post put trace : Method
  other : Bytes → Method

-- `matches!(request.method(), Method::Get | Method::Head)`.
unfoldable pub is_get_or_head : Method → Bool
is_get_or_head get = true
is_get_or_head head = true
is_get_or_head method = false

-- What a read of the stream answers.
pub data Read : Type 0 where
  closed last_operation_failed : Read
  received : Bytes → Read

-- The resources of the host. `poll_deadline` is `poll(&[readable, deadline]).contains(&1)`.
pub record Host (S : Type 0) : Type 0 where
  pub consume : S → Bool × S
  pub stream : S → Bool × S
  pub finish : S → S
  pub deadline_ready : S → Bool × S
  pub read : S → Read × S
  pub blocking_read : S → Read × S
  pub poll_deadline : S → Bool × S

abbrev pub empty_body_read_cap : ℕ
empty_body_read_cap = 64

-- `note_empty_body_read`: the new count (a `u32`, saturating), and whether it is below the cap.
unfoldable pub note_empty_body_read : ℕ → Result (Unit {0}) RequestError × ℕ
note_empty_body_read consecutive_empty =
    let count = min (consecutive_empty + 1) 0xffffffff in
    (if leb empty_body_read_cap count then err body_stream_unavailable else ok tt, count)

unfoldable pub declared_length_matches : Option ℕ → ℕ → Bool
declared_length_matches none actual = true
declared_length_matches (some declared) actual = declared == actual

-- The variables of the loop: the body and the count of empty reads, with the state of the host.
pub record Loop (S : Type 0) : Type 0 where
  pub body : Bytes
  pub consecutive_empty : ℕ
  pub host : S

-- What a round does: `break`, or another round.
pub data Step (S : Type 0) : Type 0 where
  break : Result (Unit {0}) RequestError → Loop S → Step S
  next : Loop S → Step S

-- The last match of the loop's body, on a read that the arms above it did not handle.
unfoldable pub on_read : {S : Type 0} → ℕ → ℕ → Loop S → Read → Step S
on_read usize_max max_body_size l closed = break (ok tt) l
on_read usize_max max_body_size l last_operation_failed = break (err wasi_io) l
on_read usize_max max_body_size l (received bytes) =
    if ltb max_body_size (min (length l.body + length bytes) usize_max)
    then break (err (body_too_large max_body_size)) (record l { consecutive_empty = 0 })
    else next (record l { body = l.body ++ bytes; consecutive_empty = 0 })

module _ {S : Type 0} (host : Host S) (usize_max max_body_size : ℕ) where
  -- An empty read under a budget: count it, and wait for the stream or the timer.
  unfoldable pub on_empty : ℕ → Result (Unit {0}) RequestError → Loop S → Step S
  on_empty budget (err e) l = break (err e) l
  on_empty budget (ok _) l =
      if (host.poll_deadline l.host).0
      then break (err (body_read_timeout budget))
          (record l { host = (host.poll_deadline l.host).1 })
      else next (record l { host = (host.poll_deadline l.host).1 })

  -- The arm `(Some(deadline), Some(readable))`.
  unfoldable pub on_timed_read : ℕ → Loop S → Read → Step S
  on_timed_read budget l closed = on_read usize_max max_body_size l closed
  on_timed_read budget l last_operation_failed =
      on_read usize_max max_body_size l last_operation_failed
  on_timed_read budget l (received []) =
      let noted = note_empty_body_read l.consecutive_empty in
      on_empty budget noted.0 (record l { consecutive_empty = noted.1 })
  on_timed_read budget l (received (b ∷ bs)) = on_read usize_max max_body_size l (received (b ∷ bs))

  unfoldable pub timed_round : ℕ → Loop S → Step S
  timed_round budget l =
      let ready = host.deadline_ready l.host in
      if ready.0
      then break (err (body_read_timeout budget)) (record l { host = ready.1 })
      else on_timed_read budget (record l { host = (host.read ready.1).1 }) (host.read ready.1).0

  -- One round of the loop of `collect_wasi_body`.
  unfoldable pub round : Option ℕ → Loop S → Step S
  round none l =
      on_read usize_max max_body_size (record l { host = (host.blocking_read l.host).1 })
        (host.blocking_read l.host).0
  round (some budget) l = timed_round budget l

  unfoldable pub after_round :
      Step S
      → (Loop S → Option (Result (Unit {0}) RequestError × Loop S))
      → Option (Result (Unit {0}) RequestError × Loop S)
  after_round (break r l) rest = some (r, l)
  after_round (next l) rest = rest l

  -- The loop, with fuel for its rounds; `none` means that the fuel ran out.
  unfoldable pub collect_loop :
      Option ℕ → ℕ → Loop S → Option (Result (Unit {0}) RequestError × Loop S)
  collect_loop timeout_ns zero l = none
  collect_loop timeout_ns (suc fuel) l =
      after_round (round timeout_ns l) (collect_loop timeout_ns fuel)

  -- Behind the loop.
  unfoldable pub finish_body :
      Option ℕ → Result (Unit {0}) RequestError → Loop S → Result Bytes RequestError × S
  finish_body declared (err e) l = (err e, host.finish l.host)
  finish_body declared (ok _) l = (
    (if not (declared_length_matches declared (length l.body))
        then err (policy invalid_content_length)
        else ok l.body),
    host.finish l.host,
  )

  unfoldable pub finish_collected :
      Option ℕ
      → Option (Result (Unit {0}) RequestError × Loop S)
      → Option (Result Bytes RequestError × S)
  finish_collected declared none = none
  finish_collected declared (some (r, l)) = some (finish_body declared r l)

  -- From `request.consume()` on.
  unfoldable pub open_and_collect :
      ℕ → Option ℕ → Option ℕ → S → Option (Result Bytes RequestError × S)
  open_and_collect fuel declared timeout_ns s =
      let consumed = host.consume s in
      let opened = host.stream consumed.1 in
      if not consumed.0
      then some (err body_already_consumed, consumed.1)
      else if not opened.0
      then some (err body_stream_unavailable, host.finish opened.1)
      else finish_collected declared (
          collect_loop timeout_ns fuel
            (record { body = []; consecutive_empty = 0; host = opened.1 }))

  -- `collect_wasi_body`, given the result of `validate_content_length` on its headers.
  unfoldable pub collect_wasi_body :
      ℕ
      → Result (Option ℕ) RequestPolicyError
      → Method
      → Option ℕ
      → S
      → Option (Result Bytes RequestError × S)
  collect_wasi_body fuel (err e) method timeout_ns s = some (err (policy e), s)
  collect_wasi_body fuel (ok declared) method timeout_ns s =
      if is_get_or_head method then some (ok [], s) else open_and_collect fuel declared timeout_ns s
