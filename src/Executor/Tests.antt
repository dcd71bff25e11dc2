-- ===== src/Executor/Tests.antt =====
-- Runs of the wait queue, with numbers for pollables and wakers, and the theorems at these runs.
use leptos_wasi.Prelude.{
  ℕ, ◌+◌, ◌<◌, Bool, true, ◌≡◌, refl, List, [], ◌∷◌, ok, arith, length, map, ◌==◌, if◌then◌else◌,
  any,
}
use leptos_wasi.Executor.Registration.{
  ready_with, not_ready, new, mark_ready, mark_ready_at, is_pending, is_pending_at,
}
use leptos_wasi.Executor.WaitQueue.{
  WaitQueue, default, push_entry, take_pending, filter_pending, u64_mod,
}
use leptos_wasi.Executor.WaitQueue.Invariant.{IsValid, default-IsValid, push_entry-IsValid}
use leptos_wasi.Executor.Dispatch.{
  dispatch_ready, sweep_ready, ready_flags, complete, complete_one, set_flags,
}
use leptos_wasi.Executor.Dispatch.Selected.{selected, remaining, chosen, unchosen, elem}
use leptos_wasi.Executor.Dispatch.Laws.{
  IsDispatched, dispatch_ready-IsDispatched, sweep_ready-IsDispatched,
  sweep_ready-eq-dispatch_ready,
}
use leptos_wasi.Executor.WaitPoll.{unregistered, poll_wait}
use leptos_wasi.Executor.WaitPoll.Laws.{poll_wait-IsValid}
use leptos_wasi.Executor.WaitPoll.Restored.{IsRestored, repolled, poll_wait-drop_wait}
use leptos_wasi.Executor.WaitPoll.Delivered.{first, again, wake_delivered}

-- Three pollables, 10, 20 and 30, with the wakers 1, 2 and 3.
queue : WaitQueue ℕ ℕ
queue = push_entry 30 3 (push_entry 20 2 (push_entry 10 1 default))

queue-IsValid : IsValid queue
unfolding queue
queue-IsValid =
    push_entry-IsValid 30 3 _
      (push_entry-IsValid 20 2 _ (push_entry-IsValid 10 1 _ default-IsValid))

-- The host reports the last and the first, twice, and an index beyond the end.
abbrev answer : List ℕ → List ℕ
answer pollables = 2 ∷ 0 ∷ 0 ∷ 9 ∷ []

woken_in_order : (dispatch_ready answer queue).woken ≡ 1 ∷ 3 ∷ []
unfolding queue push_entry default new dispatch_ready take_pending filter_pending is_pending_at
    is_pending ready_flags set_flags complete complete_one mark_ready_at mark_ready
woken_in_order = refl

abbrev is_ten : ℕ → Bool
is_ten p = p == 10

dispatch_ready-IsDispatched_example :
    IsDispatched queue
      (selected (answer (map (λ e. e.pollable) queue.entries)) 0 queue.entries)
      (remaining (answer (map (λ e. e.pollable) queue.entries)) 0 queue.entries)
      (dispatch_ready answer queue)
    × IsValid (dispatch_ready answer queue).queue
dispatch_ready-IsDispatched_example = dispatch_ready-IsDispatched answer queue queue-IsValid

sweep_ready-IsDispatched_example :
    IsDispatched queue
      (chosen (map (λ e. is_ten e.pollable) queue.entries) queue.entries)
      (unchosen (map (λ e. is_ten e.pollable) queue.entries) queue.entries)
      (sweep_ready is_ten queue)
    × IsValid (sweep_ready is_ten queue).queue
    × ((sweep_ready is_ten queue).progress ≡ any (λ e. is_ten e.pollable) queue.entries)
sweep_ready-IsDispatched_example = sweep_ready-IsDispatched is_ten queue queue-IsValid

first_only : ready_flags (λ ps. 0 ∷ []) queue.entries ≡ map (λ e. is_ten e.pollable) queue.entries
unfolding queue push_entry default ready_flags set_flags
first_only = refl

sweep_ready-eq-dispatch_ready_example :
    ((sweep_ready is_ten queue).woken ≡ (dispatch_ready (λ ps. 0 ∷ []) queue).woken)
    × ((sweep_ready is_ten queue).queue ≡ (dispatch_ready (λ ps. 0 ∷ []) queue).queue)
sweep_ready-eq-dispatch_ready_example =
    sweep_ready-eq-dispatch_ready is_ten (λ ps. 0 ∷ []) queue queue-IsValid first_only

poll_wait-IsValid_example : IsValid (poll_wait ◌==◌ true 5 (unregistered 40) queue).queue
poll_wait-IsValid_example = poll_wait-IsValid ◌==◌ true 5 (unregistered 40) queue queue-IsValid

identifiers_left : queue.next_id + 1 < u64_mod
unfolding queue push_entry default
identifiers_left = omega arith

wake_delivered_example :
    ((first ◌==◌ 4 5 40 (λ ps. 3 ∷ []) queue).outcome ≡ not_ready)
    × ((again ◌==◌ 4 5 40 (λ ps. 3 ∷ []) queue).outcome
        ≡ (if elem (length queue.entries) (3 ∷ []) then ready_with (ok tt) else not_ready))
wake_delivered_example =
    wake_delivered ◌==◌ 4 5 40 (λ ps. 3 ∷ []) queue queue-IsValid identifiers_left

poll_wait-drop_wait_example :
    IsRestored ◌==◌ queue
      (repolled ◌==◌ (5 ∷ 5 ∷ 6 ∷ []) (poll_wait ◌==◌ true 4 (unregistered 40) queue))
poll_wait-drop_wait_example =
    poll_wait-drop_wait ◌==◌ 4 (5 ∷ 5 ∷ 6 ∷ []) 40 queue queue-IsValid identifiers_left
