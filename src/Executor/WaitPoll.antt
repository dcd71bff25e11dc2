-- ===== src/Executor/WaitPoll.antt =====
-- src/executor/p2.rs: `WaitPoll`, the future of one pollable, and its `Drop`. One queue serves the
-- thread; `installed` says whether `pollable_queue()` finds it, which it does not before an executor
-- exists. A registration stays reachable through its `Arc` in either case.
pub mod Laws
pub mod Dropped
pub mod Delivered
pub mod Restored
use leptos_wasi.Prelude.{
  ℕ, Bool, true, false, if◌then◌else◌, Option, none, some, Result, ok, err, get_elem?, set,
}
use leptos_wasi.Executor.{ExecutorError, preview2_not_initialized, pollable_canceled}
use leptos_wasi.Executor.Registration.{
  Heap, WaitRegistration, Poll, Polled, ready_with, not_ready, poll, cancel_at,
}
use leptos_wasi.Executor.WaitQueue.{WaitQueue, register}
use leptos_wasi.Executor.WaitQueue

-- `WaitPollInner`; a registration is given by its index.
pub data WaitPoll (P : Type 0) : Type 0 where
  unregistered : P → WaitPoll P
  registered : ℕ → WaitPoll P
  failed : ExecutorError → WaitPoll P

-- What a poll leaves: its outcome, the future, and the queue.
pub record WaitPolled (P W : Type 0) : Type 0 where
  pub outcome : Polled
  pub future : WaitPoll P
  pub queue : WaitQueue P W

module _ {P W : Type 0} where
  abbrev fail_with : ExecutorError → WaitQueue P W → WaitPolled P W
  fail_with e q = record { outcome = ready_with (err e); future = failed e; queue = q }

  -- The match on `queue.register(…)`.
  after_register : Result ℕ ExecutorError → WaitQueue P W → WaitPolled P W
  after_register (ok i) q = record { outcome = not_ready; future = registered i; queue = q }
  after_register (err e) q = fail_with e q

  -- A shared registration is polled in place.
  poll_registered : (W → W → Bool) → W → ℕ → WaitQueue P W → WaitPolled P W
  poll_registered will_wake waker i q = elim (get_elem? q.heap i) [
    | none ↦ fail_with pollable_canceled q
    | some r ↦ record {
      outcome = (poll will_wake waker r).0;
      future = registered i;
      queue = record q { heap = set q.heap i (poll will_wake waker r).1 };
    }
  ]

  -- `WaitPoll::poll`.
  unfoldable pub poll_wait : (W → W → Bool) → Bool → W → WaitPoll P → WaitQueue P W → WaitPolled P W
  unfolding after_register poll_registered
  poll_wait will_wake installed waker (unregistered p) q =
      if installed
      then after_register (register p waker q).0 (register p waker q).1
      else fail_with preview2_not_initialized q
  poll_wait will_wake installed waker (registered i) q = poll_registered will_wake waker i q
  poll_wait will_wake installed waker (failed e) q = fail_with e q

  -- A canceled registration; its entry leaves the queue if one is found.
  drop_registered : Bool → ℕ → WaitQueue P W → WaitQueue P W
  drop_registered installed i q = elim (get_elem? q.heap i) [
    | none ↦ q
    | some r ↦
        let canceled = record q { heap = cancel_at q.heap i } in
        if installed then WaitQueue.cancel r.id canceled else canceled
  ]

  -- `Drop for WaitPoll`.
  unfoldable pub drop_wait : Bool → WaitPoll P → WaitQueue P W → WaitQueue P W
  unfolding drop_registered
  drop_wait installed (unregistered p) q = q
  drop_wait installed (registered i) q = drop_registered installed i q
  drop_wait installed (failed e) q = q
