-- ===== src/Executor/Current.antt =====
-- src/executor/p2.rs: the queue that a future finds, `CURRENT_QUEUE` before `POLLABLE_QUEUE`, and the
-- guard that installs one while an executor runs. A queue is a handle (`Arc`), of the type `Q`.
pub mod Nested
use leptos_wasi.Prelude.{ℕ, List, [], ◌∷◌, Option, none, some}

-- The slot of the thread and the `OnceLock` of the process.
pub record Queues (Q : Type 0) : Type 0 where
  pub current : Option Q
  pub global : Option Q

module _ {Q : Type 0} where
  abbrev or_else : Option Q → Option Q → Option Q
  or_else none other = other
  or_else (some queue) other = some queue

  unfoldable pub pollable_queue : Queues Q → Option Q
  pollable_queue queues = or_else queues.current queues.global

  -- `CurrentQueueGuard::install`: the guard's field `previous`, and the slots.
  unfoldable pub install : Q → Queues Q → Option Q × Queues Q
  install queue queues = (queues.current, record queues { current = some queue })

  -- `Drop for CurrentQueueGuard`.
  unfoldable pub drop_guard : Option Q → Queues Q → Queues Q
  drop_guard previous queues = record queues { current = previous }

  -- `initialize_wait_queue` on an empty cell or on one that is set; `made` is the fresh default.
  get_or_init : Q → Option Q → Q
  get_or_init made none = made
  get_or_init made (some queue) = queue

  unfoldable pub initialize_wait_queue : Q → Queues Q → Q × Queues Q
  unfolding get_or_init
  initialize_wait_queue made queues = (
    get_or_init made queues.global,
    record queues { global = some (get_or_init made queues.global) },
  )

  -- `map_or(0, …)`.
  depth_or_zero : (Q → ℕ) → Option Q → ℕ
  depth_or_zero len none = 0
  depth_or_zero len (some queue) = len queue

  unfoldable pub pollable_queue_depth : (Q → ℕ) → Queues Q → ℕ
  unfolding depth_or_zero
  pollable_queue_depth len queues = depth_or_zero len queues.global
