-- ===== src/Executor/Registration.antt =====
-- src/executor/p2.rs: `WaitRegistration`. A registration is shared between the future that waits
-- and the entry of the queue (`Arc`), so registrations live on a heap and are named by their index.
-- Wakers are the program's parameter: `will_wake` is `Waker::will_wake`.
pub mod Laws
use leptos_wasi.Prelude.{
  ℕ, Bool, true, false, List, [], ◌∷◌, Option, none, some, Result, ok, err, get_elem?, set, not,
  if◌then◌else◌,
}
use leptos_wasi.Executor.{ExecutorError, pollable_canceled}

pub data RegistrationStatus : Type 0 where
  pending ready canceled : RegistrationStatus

-- The fields of `RegistrationInner` stand beside the identifier.
pub record WaitRegistration (W : Type 0) : Type 0 where
  pub id : ℕ
  pub status : RegistrationStatus
  pub task_waker : W

-- `std::task::Poll`.
pub data Poll {ℓ} (A : Type ℓ) : Type ℓ where
  ready_with : A → Poll A
  not_ready : Poll A

-- The outcome of polling a future of this module.
abbrev pub Polled : Type 0
Polled = Poll (Result (Unit {0}) ExecutorError)

abbrev pub Heap : Type 0 → Type 0
Heap W = List (WaitRegistration W)

abbrev pub status_is_pending : RegistrationStatus → Bool
status_is_pending pending = true
status_is_pending _ = false

module _ {W : Type 0} where
  -- `WaitRegistration::new`.
  unfoldable pub new : ℕ → W → WaitRegistration W
  new id waker = record { id = id; status = pending; task_waker = waker }

  -- `WaitRegistration::poll`, on the fields behind the lock.
  poll_status :
      (W → W → Bool) → RegistrationStatus → W → WaitRegistration W → Polled × WaitRegistration W
  poll_status will_wake ready waker r = (ready_with (ok tt), r)
  poll_status will_wake canceled waker r = (ready_with (err pollable_canceled), r)
  poll_status will_wake pending waker r = (
    not_ready,
    (if not (will_wake r.task_waker waker) then record r { task_waker = waker } else r),
  )

  unfoldable pub poll : (W → W → Bool) → W → WaitRegistration W → Polled × WaitRegistration W
  unfolding poll_status
  poll will_wake waker r = poll_status will_wake r.status waker r

  -- `WaitRegistration::mark_ready`.
  unfoldable pub mark_ready : WaitRegistration W → Option W × WaitRegistration W
  mark_ready r =
      if not (status_is_pending r.status)
      then (none, r)
      else (some r.task_waker, record r { status = ready })

  -- `WaitRegistration::cancel`.
  unfoldable pub cancel : WaitRegistration W → WaitRegistration W
  cancel r = if status_is_pending r.status then record r { status = canceled } else r

  -- `WaitRegistration::is_pending`.
  unfoldable pub is_pending : WaitRegistration W → Bool
  is_pending r = status_is_pending r.status

  -- The methods on a shared registration, by its index. An `Arc` never dangles: an index beyond
  -- the heap is treated as a registration that is no longer pending.
  unfoldable pub is_pending_at : Heap W → ℕ → Bool
  unfolding is_pending
  is_pending_at heap i = elim (get_elem? heap i) [ none ↦ false | some r ↦ is_pending r ]

  unfoldable pub mark_ready_at : Heap W → ℕ → Option W × Heap W
  mark_ready_at heap i = elim (get_elem? heap i) [
    | none ↦ (none, heap)
    | some r ↦ ((mark_ready r).0, set heap i (mark_ready r).1)
  ]

  unfoldable pub cancel_at : Heap W → ℕ → Heap W
  cancel_at heap i = elim (get_elem? heap i) [ none ↦ heap | some r ↦ set heap i (cancel r) ]
