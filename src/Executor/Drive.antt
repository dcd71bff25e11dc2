-- ===== src/Executor/Drive.antt =====
-- src/executor/p2.rs: `Executor::run_until`, `drive_until_output` and what they call. The local pool
-- of the futures crate, the guest's tasks and the host are parameters, in the record `Env`.
pub mod Outcomes
pub mod Returns
pub mod Spawned
mod Tests
use leptos_wasi.Prelude.{
  ℕ, zero, suc, Bool, true, false, not, ◌&&◌, ◌||◌, List, [], ◌∷◌, Option, none, some, Result, ok,
  err, if◌then◌else◌, ◌≡◌,
}
use leptos_wasi.Executor.{
  ExecutorError, task_spawn_failed, run_until_canceled, reentrant_poll, stalled,
}
use leptos_wasi.Executor.WaitQueue.{WaitQueue}
use leptos_wasi.Executor.Dispatch.{
  Dispatched, dispatch_ready, sweep_ready, abandon_leftover_pollables,
}

pub data Mode : Type 0 where
  preemptive stalling : Mode

pub data HostWait : Type 0 where
  sweeping blocking : HostWait

unfoldable pub host_wait : Mode → Bool → HostWait
host_wait preemptive guest_progress = if guest_progress then sweeping else blocking
host_wait stalling guest_progress = blocking

-- `ExecutorInner`, with the tasks of the pool as `guest`; `borrowed` is the `RefCell` of the pool.
pub record State (G P W : Type 0) : Type 0 where
  pub guest : G
  pub queue : WaitQueue P W
  pub spawn_failed : Bool
  pub borrowed : Bool

-- `oneshot::Receiver::try_recv`: the sender is gone, has not sent, or has sent.
pub data Received (T : Type 0) : Type 0 where
  canceled empty : Received T
  value : T → Received T

-- The pool, the result channel, the wakers and the host. A step of the pool runs tasks, and a waker may
-- poll futures at once: both may use the queue and the flags.
pub record Env (G P W T : Type 0) : Type 0 where
  pub try_run_one : State G P W → Bool × State G P W
  pub run_until_stalled : State G P W → State G P W
  pub wake : W → State G P W → State G P W
  pub try_recv : State G P W → Received T
  pub poll_host : State G P W → List P → List ℕ
  pub is_ready : State G P W → P → Bool

-- One part of the loop: `?` and `return` leave it.
pub data Flow (A T S : Type 0) : Type 0 where
  leave : Result T ExecutorError → S → Flow A T S
  go_on : A → S → Flow A T S

abbrev pub then_do : {A B T S : Type 0} → Flow A T S → (A → S → Flow B T S) → Flow B T S
then_do (leave r s) f = leave r s
then_do (go_on a s) f = f a s

module _ {G P W T : Type 0} (env : Env G P W T) (mode : Mode) where
  -- `consume_spawn_failed()?`.
  unfoldable pub consume_spawn_failed : State G P W → Flow (Unit {0}) T (State G P W)
  consume_spawn_failed s =
      if s.spawn_failed
      then leave (err task_spawn_failed) (record s { spawn_failed = false })
      else go_on tt s

  -- `for waker in task_wakers { waker.wake(); }`.
  unfoldable pub wake_all : List W → State G P W → State G P W
  wake_all [] s = s
  wake_all (w ∷ ws) s = wake_all ws (env.wake w s)

  -- `abandon_leftover_pollables`, and the wakers that it wakes.
  unfoldable pub abandon : State G P W → State G P W
  abandon s =
      wake_all (abandon_leftover_pollables (env.is_ready s) s.queue).0
        (record s { queue = (abandon_leftover_pollables (env.is_ready s) s.queue).1 })

  unfoldable pub on_received : Received T → State G P W → Flow (Unit {0}) T (State G P W)
  on_received canceled s = leave (err run_until_canceled) s
  on_received empty s = go_on tt s
  on_received (value t) s = leave (ok t) (abandon s)

  -- `if let Some(output) = receiver.try_recv().map_err(…)? { abandon…; return Ok(output) }`.
  unfoldable pub receive : State G P W → Flow (Unit {0}) T (State G P W)
  receive s = on_received (env.try_recv s) s

  -- The match of `run_guest` on the mode.
  unfoldable pub run_pool : Mode → State G P W → Bool × State G P W
  run_pool preemptive s = env.try_run_one s
  run_pool stalling s = (false, env.run_until_stalled s)

  -- `run_guest`: the pool is borrowed while its tasks run.
  unfoldable pub run_guest : State G P W → Flow Bool T (State G P W)
  run_guest s =
      if s.borrowed
      then leave (err reentrant_poll) s
      else (let ran = run_pool mode (record s { borrowed = true }) in
          go_on ran.0 (record (ran.1) { borrowed = false }))

  -- A sweep or a dispatch, and then its wakers.
  unfoldable pub settle : State G P W → Dispatched P W → Bool × State G P W
  settle s d = (d.progress, wake_all d.woken (record s { queue = d.queue }))

  unfoldable pub poll_host : Bool → State G P W → Bool × State G P W
  poll_host guest_progress s = elim (host_wait mode guest_progress) [
    | sweeping ↦ settle s (sweep_ready (env.is_ready s) s.queue)
    | blocking ↦ settle s (dispatch_ready (env.poll_host s) s.queue)
  ]

  -- The end of a round: `Err(Stalled)` when neither side made progress.
  unfoldable pub finish_round : Bool → Bool → State G P W → Flow (Unit {0}) T (State G P W)
  finish_round guest_progress host_progress s =
      if not guest_progress && not host_progress then leave (err stalled) s else go_on tt s

  -- One round of the loop of `drive_until_output`.
  unfoldable pub drive_round : State G P W → Flow (Unit {0}) T (State G P W)
  drive_round s = then_do (consume_spawn_failed s) λ _ s₁. then_do (receive s₁) λ _ s₂.
      then_do (run_guest s₂) λ guest_progress s₃. then_do (consume_spawn_failed s₃) λ _ s₄.
        then_do (receive s₄) λ _ s₅.
          let host = poll_host guest_progress s₅ in
          then_do (receive host.1) λ _ s₆. finish_round guest_progress host.0 s₆

  -- Behind a round: leave the loop, or go on with the rest of it.
  unfoldable pub after_round :
      Flow (Unit {0}) T (State G P W)
      → (State G P W → Option (Result T ExecutorError × State G P W))
      → Option (Result T ExecutorError × State G P W)
  after_round (leave r s') rest = some (r, s')
  after_round (go_on _ s') rest = rest s'

  -- The loop, with fuel for its rounds; `none` means that the fuel ran out.
  unfoldable pub drive_until_output :
      ℕ → State G P W → Option (Result T ExecutorError × State G P W)
  drive_until_output zero s = none
  drive_until_output (suc fuel) s = after_round (drive_round s) (drive_until_output fuel)

  -- `poll_once`: one round for `any_spawner`'s `poll_local`.
  unfoldable pub poll_once : State G P W → Result Bool ExecutorError × State G P W
  poll_once s =
      if s.borrowed
      then (err reentrant_poll, s)
      else (let ran = run_pool mode (record s { borrowed = true }) in
          let host = poll_host ran.0 (record (ran.1) { borrowed = false }) in
          (ok (ran.0 || host.0), host.1))

  -- `run_until`: `spawn_root` puts the wrapped future on the pool, `abort` is its abort handle.
  unfoldable pub drop_aborted_tasks : State G P W → State G P W
  drop_aborted_tasks s =
      if s.borrowed
      then s
      else record (env.run_until_stalled (record s { borrowed = true })) { borrowed = false }

  unfoldable pub end_run :
      (State G P W → State G P W)
      → Result T ExecutorError
      → State G P W
      → Result T ExecutorError × State G P W
  end_run abort (ok t) s = (ok t, s)
  end_run abort (err e) s = (err e, drop_aborted_tasks (abort s))

  unfoldable pub run_until :
      (State G P W → Bool × State G P W)
      → (State G P W → State G P W)
      → ℕ
      → State G P W
      → Option (Result T ExecutorError × State G P W)
  run_until spawn_root abort fuel s =
      if not (spawn_root s).0
      then some (err task_spawn_failed, (spawn_root s).1)
      else elim (drive_until_output fuel (spawn_root s).1) [
        | none ↦ none
        | some (r, s') ↦ some (end_run abort r s')
      ]

-- `with_queue_and_poller`: a new executor on a queue, with an empty pool.
unfoldable pub with_queue_and_poller : {G P W : Type 0} → G → WaitQueue P W → State G P W
with_queue_and_poller pool queue = record {
  guest = pool;
  queue = queue;
  spawn_failed = false;
  borrowed = false;
}

-- `CustomExecutor for Executor`. `spawner` hands a future to the pool, or refuses it.
module _ {G P W : Type 0} (spawner : State G P W → Bool × State G P W) where
  abbrev note_refusal : Bool × State G P W → State G P W
  note_refusal (true, s) = s
  note_refusal (false, s) = record s { spawn_failed = true }

  unfoldable pub spawn : State G P W → State G P W
  spawn s = note_refusal (spawner s)

  unfoldable pub spawn_local : State G P W → State G P W
  spawn_local s = note_refusal (spawner s)

unfoldable pub poll_local : {G P W T : Type 0} → Env G P W T → Mode → State G P W → State G P W
poll_local env mode s = (poll_once env mode s).1
