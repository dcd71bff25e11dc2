-- ===== src/Executor/Dispatch/Live.antt =====
-- The two functions on a valid queue, of which nothing is filtered out.
use leptos_wasi.Prelude.{
  ℕ, Bool, true, false, ◌≡◌, refl, ap, ◌∙◌, List, [], length, map, if◌then◌else◌, is_empty,
}
use leptos_wasi.Executor.WaitQueue.{TableEntry, WaitQueue, take_pending}
use leptos_wasi.Executor.WaitQueue.Invariant.{IsValid, filter_pending-IsLive}
use leptos_wasi.Executor.Dispatch.{
  complete, unset, ready_flags, after_loop, sweep, dispatch_ready, sweep_ready,
}
use leptos_wasi.Executor.Dispatch.Selected.{mark, set_flags-mark, length-mark, length-unset}

pub ready_flags-mark :
    {P : Type 0} (poll_host : List P → List ℕ) (es : List (TableEntry P))
    → ready_flags poll_host es ≡ mark (poll_host (map (λ e. e.pollable) es)) 0 (unset (length es))
unfolding ready_flags
ready_flags-mark poll_host es = set_flags-mark _ (unset (length es))

pub ready_flags-length :
    {P : Type 0} (poll_host : List P → List ℕ) (es : List (TableEntry P))
    → length (ready_flags poll_host es) ≡ length es
ready_flags-length poll_host es =
    ap length (ready_flags-mark poll_host es)
    ∙ length-mark _ 0 (unset (length es))
    ∙ length-unset (length es)

module _ {P W : Type 0} where
  -- The two functions after the entries are known to be all pending.
  pub dispatch_live :
      (poll_host : List P → List ℕ) (q : WaitQueue P W)
      → IsValid q
      → dispatch_ready poll_host q ≡ (
          if is_empty q.entries
          then record { progress = false; woken = []; queue = record q { entries = [] } }
          else (let done = complete q.heap q.entries (ready_flags poll_host q.entries) in
              record {
                progress = true;
                woken = done.task_wakers;
                queue = after_loop done (record q { entries = [] });
              }))
  unfolding dispatch_ready take_pending
  dispatch_live poll_host q v = rw (filter_pending-IsLive q.heap q.entries v.live) refl

  pub sweep_live :
      (is_ready : P → Bool) (q : WaitQueue P W)
      → IsValid q
      → sweep_ready is_ready q ≡ (
          if is_empty q.entries
          then record { progress = false; woken = []; queue = record q { entries = [] } }
          else (let done = sweep is_ready q.heap q.entries in
              record {
                progress = done.0;
                woken = done.1.task_wakers;
                queue = after_loop done.1 (record q { entries = [] });
              }))
  unfolding sweep_ready take_pending
  sweep_live is_ready q v = rw (filter_pending-IsLive q.heap q.entries v.live) refl
