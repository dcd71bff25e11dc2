-- ===== src/Executor/Drive/Tests.antt =====
-- A guest that counts down and then sends its output, driven to its end.
use leptos_wasi.Prelude.{
  ℕ, zero, suc, ◌+◌, ◌-◌, ◌≤◌, ◌<◌, List, ◌∷◌, length, Bool, true, false, [], some, Result, ok,
  if◌then◌else◌, ◌≡◌, refl, arith, ◌==◌,
}
use leptos_wasi.Executor.{ExecutorError}
use leptos_wasi.Executor.WaitQueue.{
  TableEntry, WaitQueue, take_pending, filter_pending, requeue_pending,
}
use leptos_wasi.Executor.Dispatch.{
  after_loop, complete_one, dispatch_ready, sweep_ready, sweep, abandon_leftover_pollables,
}
use leptos_wasi.Executor.Drive.{
  preemptive, State, Received, empty, value, Env, host_wait, consume_spawn_failed, wake_all,
  abandon, on_received, receive, run_pool, run_guest, settle, poll_host, finish_round, drive_round,
  after_round, drive_until_output,
}
use leptos_wasi.Executor.Drive.Outcomes.{IsEnded, drive_until_output-IsEnded}
use leptos_wasi.Executor.Drive.Returns.{IsFinite, drive_until_output-total}
use leptos_wasi.Executor.Registration.{pending, is_pending, is_pending_at}

abbrev sent : ℕ → Received ℕ
sent zero = value 7
sent (suc n) = empty

abbrev tick : State ℕ ℕ ℕ → Bool × State ℕ ℕ ℕ
tick s = if s.guest == 0 then (false, s) else (true, record s { guest = s.guest - 1 })

abbrev countdown : Env ℕ ℕ ℕ ℕ
countdown = record {
  try_run_one = tick;
  run_until_stalled = λ s. record s { guest = 0 };
  wake = λ w s. s;
  try_recv = λ s. sent s.guest;
  poll_host = λ s ps. 0 ∷ [];
  is_ready = λ s p. false;
}

-- One registration, of the pollable 10, which waits or is no longer in the queue.
abbrev queue : List (TableEntry ℕ) → WaitQueue ℕ ℕ
queue entries = record {
  next_id = 2;
  entries = entries;
  heap = record { id = 1; status = pending; task_waker = 5 } ∷ [];
}

abbrev start : ℕ → List (TableEntry ℕ) → State ℕ ℕ ℕ
start n entries = record {
  guest = n;
  queue = queue entries;
  spawn_failed = false;
  borrowed = false;
}

abbrev waiting : List (TableEntry ℕ)
waiting = record { pollable = 10; registration = 0 } ∷ []

drive : Unit {0}
unfolding drive_until_output after_round drive_round consume_spawn_failed receive on_received
    abandon run_guest run_pool poll_host settle finish_round host_wait sweep_ready dispatch_ready
    abandon_leftover_pollables take_pending filter_pending sweep wake_all after_loop requeue_pending
    complete_one is_pending_at is_pending
drive = tt

counts_down : drive_until_output countdown preemptive 4 (start 3 waiting) ≡ some (ok 7, start 0 [])
unfolding drive
counts_down = refl

drive_until_output-IsEnded_example :
    IsEnded countdown preemptive (start 3 waiting) (ok 7) (start 0 [])
drive_until_output-IsEnded_example =
    drive_until_output-IsEnded countdown preemptive 4 (start 3 waiting) (start 0 []) (ok 7)
      counts_down

spends :
    (s : State ℕ ℕ ℕ)
    → (tick s).0 ≡ true
    → (tick s).1.guest + length (tick s).1.queue.entries < s.guest + length s.queue.entries
spends s h = ground arith

keeps :
    (s : State ℕ ℕ ℕ)
    → (tick s).0 ≡ false
    → (tick s).1.guest + length (tick s).1.queue.entries ≤ s.guest + length s.queue.entries
keeps s h = ground arith

countdown-IsFinite : IsFinite countdown (λ n. n)
countdown-IsFinite = record {
  run_spends = spends;
  run_keeps = keeps;
  stall_keeps = λ s. omega arith;
  wake_keeps = λ w s. omega arith;
  poll_answers = λ s ps h. (0, refl, h);
}

drive_until_output-total_example :
    (r : Result ℕ ExecutorError) × (s' : State ℕ ℕ ℕ) × (drive_until_output countdown preemptive 5
        (start 3 waiting)
      ≡ some (r, s'))
    × IsEnded countdown preemptive (start 3 waiting) r s'
drive_until_output-total_example =
    drive_until_output-total countdown (λ n. n) preemptive countdown-IsFinite 5 (start 3 waiting)
      (omega arith)
