-- ===== src/Executor/WaitQueue.antt =====
-- src/executor/p2.rs: `WaitQueue`, the pollables that wait for the host. The pollable resources are
-- the type `P`, a parameter.
pub mod Invariant
pub mod Removal
use leptos_wasi.Prelude.{
  ℕ, ◌+◌, ◌^◌, suc, Bool, true, false, List, [], ◌∷◌, ◌++◌, Option, none, some, Result, ok, err,
  get_elem?, length, ltb, ◌==◌, if◌then◌else◌,
}
use leptos_wasi.Executor.{ExecutorError, pollable_registration_exhausted}
use leptos_wasi.Executor.Registration.{Heap, WaitRegistration, is_pending_at}
use leptos_wasi.Executor.Registration

-- `registration` is the index of the shared registration.
pub record TableEntry (P : Type 0) : Type 0 where
  pub pollable : P
  pub registration : ℕ

-- The queue and the heap of the registrations that it has made.
pub record WaitQueue (P W : Type 0) : Type 0 where
  pub next_id : ℕ
  pub entries : List (TableEntry P)
  pub heap : Heap W

abbrev pub u64_mod : ℕ
u64_mod = 2 ^ 64

module _ {P W : Type 0} where
  -- `WaitQueue::default`.
  unfoldable pub default : WaitQueue P W
  default = record { next_id = 1; entries = []; heap = [] }

  -- The registration of a fresh identifier at the end of the queue.
  unfoldable pub push_entry : P → W → WaitQueue P W → WaitQueue P W
  push_entry pollable waker q = record {
    next_id = q.next_id + 1;
    entries = q.entries ++ (record { pollable = pollable; registration = length q.heap } ∷ []);
    heap = q.heap ++ (Registration.new q.next_id waker ∷ []);
  }

  -- `WaitQueue::register`: `checked_add` refuses the last identifier.
  unfoldable pub register : P → W → WaitQueue P W → Result ℕ ExecutorError × WaitQueue P W
  register pollable waker q =
      if ltb (q.next_id + 1) u64_mod
      then (ok (length q.heap), push_entry pollable waker q)
      else (err pollable_registration_exhausted, q)

  -- `entry.registration.id() == id`.
  unfoldable pub has_id : Heap W → ℕ → TableEntry P → Bool
  has_id heap id e = elim (get_elem? heap e.registration) [ none ↦ false | some r ↦ r.id == id ]

  -- `entries.iter().position(…).and_then(|index| entries.remove(index))`.
  unfoldable pub remove_first : Heap W → ℕ → List (TableEntry P) → List (TableEntry P)
  remove_first heap id [] = []
  remove_first heap id (e ∷ es) =
      let rest = remove_first heap id es in if has_id heap id e then es else e ∷ rest

  -- `WaitQueue::cancel`.
  unfoldable pub cancel : ℕ → WaitQueue P W → WaitQueue P W
  cancel id q = record q { entries = remove_first q.heap id q.entries }

  -- `drain(..).filter(|entry| entry.registration.is_pending())`.
  unfoldable pub filter_pending : Heap W → List (TableEntry P) → List (TableEntry P)
  filter_pending heap [] = []
  filter_pending heap (e ∷ es) =
      let rest = filter_pending heap es in
      if is_pending_at heap e.registration then e ∷ rest else rest

  -- `WaitQueue::take_pending`.
  unfoldable pub take_pending : WaitQueue P W → List (TableEntry P) × WaitQueue P W
  take_pending q = (filter_pending q.heap q.entries, record q { entries = [] })

  -- `WaitQueue::requeue_pending`.
  unfoldable pub requeue_pending : List (TableEntry P) → WaitQueue P W → WaitQueue P W
  requeue_pending es q = record q { entries = q.entries ++ es }

  -- `WaitQueue::len`.
  unfoldable pub len : WaitQueue P W → ℕ
  len q = length q.entries
