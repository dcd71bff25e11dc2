-- ===== src/Executor/WaitPoll/Delivered.antt =====
-- A `WaitPoll` from its first poll to the poll behind the host's answer.
use leptos_wasi.Prelude.{
  ℕ, suc, ◌+◌, ◌<◌, Bool, true, ◌≡◌, refl, ap, ◌∙◌, List, [], ◌∷◌, ◌++◌, some, arith, length, map,
  if◌then◌else◌, get_elem?, ok, Bool-cases, Option-cases, inl, inr,
}
use leptos_wasi.Executor.Registration.{RegistrationStatus, pending, ready, ready_with, not_ready}
use leptos_wasi.Executor.Registration.Laws.{status_at}
use leptos_wasi.Executor.WaitQueue.{TableEntry, WaitQueue, push_entry, u64_mod}
use leptos_wasi.Executor.WaitQueue.Invariant.{Fresh, IsValid, bound-Fresh, push_entry-IsValid}
use leptos_wasi.Executor.WaitPoll.{unregistered, registered, WaitPolled, poll_wait}
use leptos_wasi.Executor.Dispatch.{Dispatched, dispatch_ready}
use leptos_wasi.Executor.Dispatch.Selected.{elem, selected}
use leptos_wasi.Executor.Dispatch.Served.{holds}
use leptos_wasi.Executor.Dispatch.Laws.{dispatch_ready-IsDispatched}
use leptos_wasi.Executor.WaitPoll.Laws.{
  outcome_of, poll_registered-IsPolled, poll_wait_first, status_new,
}

-- The entry at the end of the queue is served exactly when its position is reported.
holds_last :
    {P : Type 0} (i k m : ℕ) (p : P) (reported : List ℕ) (es : List (TableEntry P))
    → Fresh i es
    → m ≡ k + length es
    → holds i (selected reported k (es ++ record { pollable = p; registration = i } ∷ []))
      ≡ elem m reported
holds_last i k m p reported [] f h = let same : m ≡ k = omega arith in rw same (ground arith)
holds_last i k m p reported (e ∷ es) f h =
    ground (arith, holds_last i (suc k) m p reported es f.1, f.0)

module _ {P W : Type 0} (will_wake : W → W → Bool) (w later : W) (p : P)
    (poll_host : List P → List ℕ) (q : WaitQueue P W) where
  -- The first poll of a fresh future, the dispatch behind it, and the poll behind that.
  abbrev pub first : WaitPolled P W
  first = poll_wait will_wake true w (unregistered p) q

  abbrev pub served : Dispatched P W
  served = dispatch_ready poll_host first.queue

  abbrev pub again : WaitPolled P W
  again = poll_wait will_wake true later first.future served.queue

  holds_new :
      IsValid q
      → (reported : List ℕ)
      → holds (length q.heap) (selected reported 0 (push_entry p w q).entries)
        ≡ elem (length q.entries) reported
  unfolding push_entry
  holds_new v reported =
      holds_last (length q.heap) 0 (length q.entries) p reported q.entries
        (bound-Fresh q.heap q.entries v.live) (omega arith)

  status_served :
      IsValid q
      → status_at (dispatch_ready poll_host (push_entry p w q)).queue.heap (length q.heap) ≡ (
          if elem (length q.entries) (poll_host (map (λ e. e.pollable) (push_entry p w q).entries))
          then some ready
          else some pending)
  status_served v =
      let d =
        (dispatch_ready-IsDispatched poll_host (push_entry p w q) (push_entry-IsValid p w q v)).0 in
      d.status (length q.heap) ∙ rw (holds_new v _, status_new p w q) refl

  outcome_served :
      (queue : WaitQueue P W) (i : ℕ) (status : RegistrationStatus)
      → status_at queue.heap i ≡ some status
      → (poll_wait will_wake true later (registered i) queue).outcome ≡ outcome_of status
  outcome_served queue i status h = elim (Option-cases (get_elem? queue.heap i)) [
    | inl at ↦ absurd (ground arith)
    | inr (r, at) ↦
        (poll_registered-IsPolled will_wake true later i queue r at).outcome
        ∙ ap outcome_of (ground arith)
  ]

  -- The wake-up of a pollable reaches its future. On a valid queue that has identifiers left, the
  -- first poll of a fresh future is pending; the poll after the next dispatch succeeds if the host
  -- reported the position of its pollable, which is the last of the queue, and is pending otherwise.
  pub wake_delivered :
      IsValid q
      → q.next_id + 1 < u64_mod
      → (first.outcome ≡ not_ready)
        × (again.outcome ≡ (
            if elem (length q.entries) (poll_host (map (λ e. e.pollable) first.queue.entries))
            then ready_with (ok tt)
            else not_ready))
  wake_delivered v h = rw (poll_wait_first will_wake w p q h) (
    refl,
    elim (Bool-cases reported) [
      | inl e ↦ rw e (outcome_served _ _ ready (rw e at (status_served v)))
      | inr e ↦ rw e (outcome_served _ _ pending (rw e at (status_served v)))
    ],
  )
    where
      reported : Bool
      reported =
          elem (length q.entries) (poll_host (map (λ e. e.pollable) (push_entry p w q).entries))
