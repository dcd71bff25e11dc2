-- ===== src/Executor/Dispatch.antt =====
-- src/executor/p2.rs: `dispatch_ready`, `sweep_ready` and `Executor::abandon_leftover_pollables`.
-- The host's answers to one call are arguments: `poll_host` for `Poller::poll`, `is_ready` for
-- `Poller::ready`. The wakers that a call wakes are returned, oldest first.
pub mod Selected
pub mod Apart
pub mod Live
pub mod Laws
pub mod Fewer
pub mod Served
use leptos_wasi.Prelude.{
  ℕ, zero, suc, Bool, true, false, ◌||◌, List, [], ◌∷◌, ◌++◌, Option, none, some, get_elem?, set,
  length, map, is_empty, if◌then◌else◌,
}
use leptos_wasi.Executor.Registration.{Heap, mark_ready_at}
use leptos_wasi.Executor.WaitQueue.{TableEntry, WaitQueue, take_pending, requeue_pending}

-- `vec![false; n]`.
abbrev pub unset : ℕ → List Bool
unset zero = []
unset (suc n) = false ∷ unset n

-- `for index in ready { if let Some(is_ready) = ready_flags.get_mut(index) { *is_ready = true } }`.
unfoldable pub set_flags : List ℕ → List Bool → List Bool
set_flags [] flags = flags
set_flags (i ∷ is) flags = set_flags is (set flags i true)

-- `Vec::push` of an optional waker.
abbrev pub push_waker {ℓ} : {W : Type ℓ} → Option W → List W → List W
push_waker none ws = ws
push_waker (some w) ws = w ∷ ws

-- What a loop over the taken entries leaves: the heap, the wakers, the entries still pending.
pub record Completed (P W : Type 0) : Type 0 where
  pub heap : Heap W
  pub task_wakers : List W
  pub pending : List (TableEntry P)

-- Progress, woken wakers, and the queue.
pub record Dispatched (P W : Type 0) : Type 0 where
  pub progress : Bool
  pub woken : List W
  pub queue : WaitQueue P W

abbrev keep : {P : Type 0} → Bool → TableEntry P → List (TableEntry P) → List (TableEntry P)
keep true e es = es
keep false e es = e ∷ es

unfoldable pub ready_flags : {P : Type 0} → (List P → List ℕ) → List (TableEntry P) → List Bool
ready_flags poll_host es = set_flags (poll_host (map (λ e. e.pollable) es)) (unset (length es))

module _ {P W : Type 0} where
  -- One entry that is ready is marked and gives its waker; one that is not goes back.
  unfoldable pub complete_one : Bool → TableEntry P → Heap W → Option W × Heap W
  complete_one true e heap = mark_ready_at heap e.registration
  complete_one false e heap = (none, heap)

  -- The loop of `dispatch_ready` over `entries.into_iter().zip(ready_flags)`.
  unfoldable pub complete : Heap W → List (TableEntry P) → List Bool → Completed P W
  complete heap [] flags = record { heap = heap; task_wakers = []; pending = [] }
  complete heap (e ∷ es) [] = record { heap = heap; task_wakers = []; pending = [] }
  complete heap (e ∷ es) (b ∷ bs) =
      let rest = complete (complete_one b e heap).1 es bs in
      record {
        heap = rest.heap;
        task_wakers = push_waker (complete_one b e heap).0 rest.task_wakers;
        pending = keep b e rest.pending;
      }

  -- The queue after the loop: `requeue_pending` on the drained queue.
  unfoldable pub after_loop : Completed P W → WaitQueue P W → WaitQueue P W
  after_loop c q = requeue_pending c.pending (record q { heap = c.heap })

  unfoldable pub dispatch_ready : (List P → List ℕ) → WaitQueue P W → Dispatched P W
  dispatch_ready poll_host q =
      let entries = (take_pending q).0 in
      let drained = (take_pending q).1 in
      if is_empty entries
      then record { progress = false; woken = []; queue = drained }
      else (let done = complete drained.heap entries (ready_flags poll_host entries) in
          record { progress = true; woken = done.task_wakers; queue = after_loop done drained })

  -- The loop of `sweep_ready`, with `progressed`.
  unfoldable pub sweep : (P → Bool) → Heap W → List (TableEntry P) → Bool × Completed P W
  sweep is_ready heap [] = (false, record { heap = heap; task_wakers = []; pending = [] })
  sweep is_ready heap (e ∷ es) =
      let b = is_ready e.pollable in
      let rest = sweep is_ready (complete_one b e heap).1 es in
      (
        b || rest.0,
        record {
          heap = rest.1.heap;
          task_wakers = push_waker (complete_one b e heap).0 rest.1.task_wakers;
          pending = keep b e rest.1.pending;
        },
      )

  unfoldable pub sweep_ready : (P → Bool) → WaitQueue P W → Dispatched P W
  sweep_ready is_ready q =
      let entries = (take_pending q).0 in
      let drained = (take_pending q).1 in
      if is_empty entries
      then record { progress = false; woken = []; queue = drained }
      else (let done = sweep is_ready drained.heap entries in
          record {
            progress = done.0;
            woken = done.1.task_wakers;
            queue = after_loop done.1 drained;
          })

  -- `Executor::abandon_leftover_pollables`: ready leftovers are woken, the others are dropped.
  unfoldable pub abandon_leftover_pollables : (P → Bool) → WaitQueue P W → List W × WaitQueue P W
  abandon_leftover_pollables is_ready q =
      let done = (sweep is_ready (take_pending q).1.heap (take_pending q).0).1 in
      (done.task_wakers, record (take_pending q).1 { heap = done.heap })
