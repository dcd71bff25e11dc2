-- ===== src/Executor/WaitPoll/Restored.antt =====
-- A `WaitPoll` from its first poll to its `Drop`, with no answer of the host in between.
use leptos_wasi.Prelude.{
  ℕ, ◌+◌, ◌<◌, Bool, true, ◌≡◌, refl, ap, ◌∙◌, List, [], ◌∷◌, some, arith, length, ◌==◌,
  if◌then◌else◌, get_elem?, get_elem?-concat, Option-cases, Bool-cases, inl, inr,
}
use leptos_wasi.Executor.Registration.{pending, canceled, not_ready, new}
use leptos_wasi.Executor.Registration.Laws.{status_at, canceled_status}
use leptos_wasi.Executor.WaitQueue.{WaitQueue, push_entry, u64_mod}
use leptos_wasi.Executor.WaitQueue.Invariant.{IsValid, bound-Fresh, push_entry-IsValid}
use leptos_wasi.Executor.WaitQueue.Removal.{without, without-last}
use leptos_wasi.Executor.WaitPoll.{unregistered, registered, WaitPolled, poll_wait, drop_wait}
use leptos_wasi.Executor.WaitPoll.Laws.{
  poll_registered-IsPolled, poll_wait-IsValid, poll_wait_first, status_new,
}
use leptos_wasi.Executor.WaitPoll.Dropped.{drop_wait-IsDropped}

module _ {P W : Type 0} (will_wake : W → W → Bool) where
  -- Further polls of one future, each with a waker of its own.
  abbrev pub repolled : List W → WaitPolled P W → WaitPolled P W
  repolled [] s = s
  repolled (w ∷ ws) s = repolled ws (poll_wait will_wake true w s.future s.queue)

  -- The state after such polls, against the queue behind the first one.
  record IsWaiting (i : ℕ) (q : WaitQueue P W) (s : WaitPolled P W) : Type 0 where
    pub outcome : s.outcome ≡ not_ready
    pub future : s.future ≡ registered i
    pub entries : s.queue.entries ≡ q.entries
    pub statuses : (j : ℕ) → status_at s.queue.heap j ≡ status_at q.heap j
    pub valid : IsValid s.queue

  poll_wait-IsWaiting :
      (w : W) (i : ℕ) (q : WaitQueue P W) (s : WaitPolled P W)
      → status_at q.heap i ≡ some pending
      → IsWaiting i q s
      → IsWaiting i q (poll_wait will_wake true w s.future s.queue)
  poll_wait-IsWaiting w i q s h still = elim (Option-cases (get_elem? s.queue.heap i)) [
    | inl at ↦ absurd (ground (arith, still.statuses i))
    | inr (r, at) ↦
        let polled = poll_registered-IsPolled will_wake true w i s.queue r at in
        let is_pending : r.status ≡ pending = ground (arith, still.statuses i) in
        rw still.future (record {
          outcome = rw is_pending at polled.outcome;
          future = polled.future;
          entries = polled.entries ∙ still.entries;
          statuses = λ j. polled.statuses j ∙ still.statuses j;
          valid = poll_wait-IsValid will_wake true w (registered i) s.queue still.valid;
        })
  ]

  repolled-IsWaiting :
      (ws : List W) (i : ℕ) (q : WaitQueue P W) (s : WaitPolled P W)
      → status_at q.heap i ≡ some pending
      → IsWaiting i q s
      → IsWaiting i q (repolled ws s)
  repolled-IsWaiting [] i q s h still = still
  repolled-IsWaiting (w ∷ ws) i q s h still =
      repolled-IsWaiting ws i q _ h (poll_wait-IsWaiting w i q s h still)

  -- The queue that a future leaves behind.
  pub record IsRestored (q : WaitQueue P W) (last : WaitPolled P W) : Type 0 where
    pub outcome : last.outcome ≡ not_ready
    pub entries : (drop_wait true last.future last.queue).entries ≡ q.entries
    pub statuses :
        (j : ℕ)
        → status_at (drop_wait true last.future last.queue).heap j
          ≡ (if j == length q.heap then some canceled else status_at q.heap j)
    pub valid : IsValid (drop_wait true last.future last.queue)

  canceled_new :
      (p : P) (w : W) (q q' : WaitQueue P W) (j : ℕ)
      → status_at q'.heap (length q.heap) ≡ some pending
      → status_at q'.heap j ≡ status_at (push_entry p w q).heap j
      → (if j == length q.heap
          then canceled_status (status_at q'.heap (length q.heap))
          else status_at q'.heap j)
        ≡ (if j == length q.heap then some canceled else status_at q.heap j)
  unfolding push_entry new
  canceled_new p w q q' j h same = elim (Bool-cases (j == length q.heap)) [
    | inl e ↦ rw (e, h) refl
    | inr e ↦ rw (e, same) (ground (arith, get_elem?-concat q.heap (new q.next_id w) j))
  ]

  -- Dropping a future that still waits behind its first poll.
  dropped-IsRestored :
      (p : P) (w : W) (q : WaitQueue P W) (s : WaitPolled P W)
      → IsValid q
      → IsWaiting (length q.heap) (push_entry p w q) s
      → IsRestored q s
  unfolding push_entry
  dropped-IsRestored p w q s v still =
      elim (Option-cases (get_elem? s.queue.heap (length q.heap))) [
        | inl at ↦ absurd (ground (arith, still.statuses (length q.heap), status_new p w q))
        | inr (r, at) ↦
            let d = drop_wait-IsDropped (length q.heap) s.queue r still.valid at in
            let waits = still.statuses (length q.heap) ∙ status_new p w q in
            record {
              outcome = still.outcome;
              entries = rw still.future (
                  d.entries
                  ∙ ap (without (length q.heap)) still.entries
                  ∙ without-last _ q.entries (bound-Fresh q.heap q.entries v.live));
              statuses = λ j.
                  rw still.future
                    (d.status j ∙ canceled_new p w q s.queue j waits (still.statuses j));
              valid = rw still.future d.valid;
            }
      ]

  -- A future that waits and is dropped leaves no trace in the queue. On a valid queue that has
  -- identifiers left: a fresh future that is polled, once or more and with whatever wakers, is
  -- pending after its last poll; when it is dropped then, before any dispatch, the entries are those
  -- that the queue had, its registration is canceled, the status of every other registration is as
  -- it was, and the queue is valid.
  pub poll_wait-drop_wait :
      (w : W) (ws : List W) (p : P) (q : WaitQueue P W)
      → IsValid q
      → q.next_id + 1 < u64_mod
      → IsRestored q (repolled ws (poll_wait will_wake true w (unregistered p) q))
  poll_wait-drop_wait w ws p q v h = rw (poll_wait_first will_wake w p q h) (
      dropped-IsRestored p w q _ v (
        repolled-IsWaiting ws _ _ _ (status_new p w q) (record {
          outcome = refl;
          future = refl;
          entries = refl;
          statuses = λ j. refl;
          valid = push_entry-IsValid p w q v;
        })))
