-- ===== src/Handler/Wasip2/Send/Tests.antt =====
-- A host that takes three bytes at a time, and a body that comes in chunks.
use leptos_wasi.Prelude.{
  ℕ, ◌+◌, ◌≡◌, refl, true, false, List, [], ◌∷◌, ◌++◌, Option, none, some, Result, ok, err, length,
}
use leptos_wasi.Std.Str.{Bytes}
use leptos_wasi.Std.Codes.{codes}
use leptos_wasi.Http.{Response, async}
use leptos_wasi.Http.Listed.{Headers}
use leptos_wasi.Handler.Trace.{mark_first_byte, encoded}
use leptos_wasi.Handler.Wasip2.{
  on_wait, on_write, traced, chunk, on_capacity, after_step, write_all,
}
use leptos_wasi.Handler.Wasip2.Send.{
  outgoing_response, Host, committed, closed, finished, reported, World, act, and_next,
  commit_internal, on_internal, internal_setup, send_internal_error, prepare, output, on_item,
  transfer_stream, transfer_body, flush_and_wait, conclude, finish_sending, on_prepared,
  send_response,
}

-- The chunks to come, and what was written.
abbrev pub Wire : Type 0
Wire = List Bytes × Bytes

abbrev pub to_come : List Bytes → ℕ
to_come [] = 0
to_come (c ∷ cs) = length c + to_come cs + 1

abbrev next_chunk : Wire → Option (Result Bytes (Unit {0})) × Wire
next_chunk ([], s) = (none, ([], s))
next_chunk (c ∷ cs, s) = (some (ok c), (cs, s))

abbrev pub wire : Host Wire Headers (Unit {0}) (Unit {0})
wire = record {
  from_list = λ headers s. (true, s);
  append = λ name value s. (true, s);
  set_status_code = λ status s. (true, s);
  body = λ s. (true, s);
  write_stream = λ s. (true, s);
  check_write = λ s. (ok 3, s);
  wait = λ s. (ok tt, s);
  write = λ bytes s. (ok tt, (s.0, s.1 ++ bytes));
  blocking_write_and_flush = λ bytes s. (true, s);
  flush = λ s. (ok tt, s);
  next = next_chunk;
  finish = λ s. (ok tt, s);
  elapsed = λ s. 5;
}

-- The same, but it refuses a body.
abbrev refusing : Host Wire Headers (Unit {0}) (Unit {0})
refusing = record wire { body = λ s. (false, s) }

abbrev start : World Wire
start = record { host = (codes "leptos" ∷ codes "-wasi" ∷ [], []); acts = [] }

abbrev page : Response Headers (Unit {0})
page = record { status = 200; headers = []; body = async tt }

run : Unit {0}
unfolding send_response on_prepared prepare and_next finish_sending conclude flush_and_wait
    transfer_body transfer_stream on_item output act write_all after_step on_capacity on_wait
    on_write traced mark_first_byte encoded chunk send_internal_error internal_setup on_internal
    commit_internal
run = tt

sends :
    send_response wire 100 30 page start
    ≡ some (
      ok tt,
      record {
        host = ([], codes "leptos-wasi");
        acts = committed 200 ∷ closed ∷ finished ∷ reported 200 11 false (codes "none") ∷ [];
      },
    )
unfolding run
sends = refl

refuses :
    send_response refusing 100 30 page start
    ≡ some (
      err (outgoing_response (codes "body")),
      record { host = start.host; acts = reported 500 0 false (codes "response_setup") ∷ [] },
    )
unfolding run
refuses = refl
