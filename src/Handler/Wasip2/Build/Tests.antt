-- ===== src/Handler/Wasip2/Build/Tests.antt =====
-- A form that is posted in two chunks, within a limit and over it, and a body that was consumed before.
use leptos_wasi.Prelude.{true, false, [], ◌∷◌, some}
use leptos_wasi.Std.Codes.{codes}
use leptos_wasi.Request
use leptos_wasi.Request.{received, closed}
use leptos_wasi.Handler.Policy.{HandlerConfig}
use leptos_wasi.Handler.Wasip2.Send.{World}
use leptos_wasi.Handler.Wasip2.Send.Tests.{Wire}
use leptos_wasi.Handler.Wasip2.Build.{Handler}

abbrev read : Wire → Request.Read × Wire
read ([], s) = (closed, ([], s))
read (c ∷ cs, s) = (received c, (cs, s))

abbrev pub client : Request.Host Wire
client = record {
  consume = λ s. (true, s);
  stream = λ s. (true, s);
  finish = λ s. s;
  deadline_ready = λ s. (false, s);
  read = read;
  blocking_read = read;
  poll_deadline = λ s. (false, s);
}

abbrev start : World Wire
start = record { host = (codes "leptos" ∷ codes "-wasi" ∷ [], []); acts = [] }

abbrev config : HandlerConfig
config = record { max_request_body_size = 20; request_body_timeout_ns = some 1000 }
