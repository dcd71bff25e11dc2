-- ===== src/Executor/WaitPoll/Laws.antt =====
-- `WaitPoll::poll`: what it answers in each state, and that it keeps the queue valid.
use leptos_wasi.Prelude.{
  ℕ, ◌+◌, ◌<◌, Bool, true, get_elem?-concat, ◌≡◌, refl, List, [], ◌∷◌, none, some, arith, length,
  if◌then◌else◌, All, get_elem?, get_elem?-set, length-set, Result, ok, err, Bool-cases,
  Option-cases, inl, inr,
}
use leptos_wasi.Executor.{ExecutorError, pollable_canceled}
use leptos_wasi.Executor.Registration.{
  RegistrationStatus, pending, ready, canceled, WaitRegistration, Polled, ready_with, not_ready,
  poll, new,
}
use leptos_wasi.Executor.Registration.Laws.{status_at, id_at, pending_at, is_pending_at_of_status}
use leptos_wasi.Executor.WaitQueue.{TableEntry, WaitQueue, register, push_entry, u64_mod}
use leptos_wasi.Executor.WaitQueue.Invariant.{IsLive, IsValid, register-IsValid, IsValid-of_ids}
use leptos_wasi.Executor.WaitPoll.{
  WaitPoll, unregistered, registered, failed, WaitPolled, after_register, poll_wait,
}

-- What a registered future answers in each status.
abbrev pub outcome_of : RegistrationStatus → Polled
outcome_of pending = not_ready
outcome_of ready = ready_with (ok tt)
outcome_of canceled = ready_with (err pollable_canceled)

poll_lem :
    {W : Type 0} (will_wake : W → W → Bool) (w : W) (r : WaitRegistration W)
    → ((poll will_wake w r).0 ≡ outcome_of r.status)
      × ((poll will_wake w r).1.status ≡ r.status)
      × ((poll will_wake w r).1.id ≡ r.id)
unfolding poll
poll_lem will_wake w r = ground arith

module _ {P W : Type 0} (will_wake : W → W → Bool) (installed : Bool) (w : W) where
  -- Polling a registered future reads its registration, and stores at most the waker.
  pub record IsPolled (i : ℕ) (q : WaitQueue P W) (status : RegistrationStatus) (p : WaitPolled P W)
      : Type 0 where
    pub outcome : p.outcome ≡ outcome_of status
    pub future : p.future ≡ registered i
    pub entries : p.queue.entries ≡ q.entries
    pub next_id : p.queue.next_id ≡ q.next_id
    pub statuses : (j : ℕ) → status_at p.queue.heap j ≡ status_at q.heap j
    pub ids : (j : ℕ) → id_at p.queue.heap j ≡ id_at q.heap j
    pub size : length p.queue.heap ≡ length q.heap

  pub poll_registered-IsPolled :
      (i : ℕ) (q : WaitQueue P W) (r : WaitRegistration W)
      → get_elem? q.heap i ≡ some r
      → IsPolled i q r.status (poll_wait will_wake installed w (registered i) q)
  unfolding poll_wait
  poll_registered-IsPolled i q r at = record {
    outcome = ground (arith, (poll_lem will_wake w r).0);
    future = ground arith;
    entries = ground arith;
    next_id = ground arith;
    statuses = λ j.
        ground
          (arith, poll_lem will_wake w r, get_elem?-set q.heap i j (poll will_wake w r).1 r at);
    ids = λ j.
        ground
          (arith, poll_lem will_wake w r, get_elem?-set q.heap i j (poll will_wake w r).1 r at);
    size = ground (arith, length-set q.heap i (poll will_wake w r).1);
  }

  IsPolled-IsLive :
      (i : ℕ) (q : WaitQueue P W) (status : RegistrationStatus) (p : WaitPolled P W)
      (es : List (TableEntry P))
      → IsPolled i q status p
      → All (IsLive q.heap) es
      → All (IsLive p.queue.heap) es
  IsPolled-IsLive i q status p [] s h = tt
  IsPolled-IsLive i q status p (e ∷ es) s h =
      let (r, at, pend) = pending_at q.heap e.registration h.0 in
      (
        is_pending_at_of_status p.queue.heap e.registration
            (ground (arith, s.statuses e.registration)),
        IsPolled-IsLive i q status p es s h.1,
      )

  poll_wait_dangling :
      (i : ℕ) (q : WaitQueue P W)
      → get_elem? q.heap i ≡ none
      → (poll_wait will_wake installed w (registered i) q).queue ≡ q
  unfolding poll_wait
  poll_wait_dangling i q h = ground arith

  after_register_queue :
      (r : Result ℕ ExecutorError) (q : WaitQueue P W) → (after_register r q).queue ≡ q
  unfolding after_register
  after_register_queue (ok i) q = refl
  after_register_queue (err e) q = refl

  poll_wait_unregistered :
      (p : P) (q : WaitQueue P W)
      → (poll_wait will_wake installed w (unregistered p) q).queue
        ≡ (if installed then (register p w q).1 else q)
  unfolding poll_wait
  poll_wait_unregistered p q = elim (Bool-cases installed) [
    | inl e ↦ rw e (after_register_queue _ _)
    | inr e ↦ rw e refl
  ]

  poll_registered-IsValid :
      (i : ℕ) (q : WaitQueue P W)
      → IsValid q
      → IsValid (poll_wait will_wake installed w (registered i) q).queue
  poll_registered-IsValid i q v = elim (Option-cases (get_elem? q.heap i)) [
    | inl none_at ↦ rw (poll_wait_dangling i q none_at) v
    | inr (r, at) ↦
        let s = poll_registered-IsPolled i q r at in
        IsValid-of_ids q _ v s.next_id s.size s.ids (rw s.entries v.distinct)
          (rw s.entries (IsPolled-IsLive i q r.status _ q.entries s v.live))
  ]

  -- Polling a `WaitPoll`, in whatever state it is, keeps the queue valid.
  pub poll_wait-IsValid :
      (f : WaitPoll P) (q : WaitQueue P W)
      → IsValid q
      → IsValid (poll_wait will_wake installed w f q).queue
  poll_wait-IsValid (unregistered p) q v = elim (Bool-cases installed) [
    | inl e ↦ rw (poll_wait_unregistered p q, e) (register-IsValid p w q v)
    | inr e ↦ rw (poll_wait_unregistered p q, e) v
  ]
  poll_wait-IsValid (registered i) q v = poll_registered-IsValid i q v
  poll_wait-IsValid (failed e) q v = unfold poll_wait in v

-- A future that has failed answers the same error at every later poll, and touches nothing.
pub poll_wait-failed :
    {P W : Type 0} (will_wake : W → W → Bool) (installed : Bool) (w : W) (e : ExecutorError)
    (q : WaitQueue P W)
    → poll_wait will_wake installed w (failed e) q
      ≡ record { outcome = ready_with (err e); future = failed e; queue = q }
unfolding poll_wait
poll_wait-failed will_wake installed w e q = refl

module _ {P W : Type 0} where
  -- The first poll of a fresh future registers its pollable at the end of the queue.
  pub poll_wait_first :
      (will_wake : W → W → Bool) (w : W) (p : P) (q : WaitQueue P W)
      → q.next_id + 1 < u64_mod
      → poll_wait will_wake true w (unregistered p) q ≡ record {
        outcome = not_ready;
        future = registered (length q.heap);
        queue = push_entry p w q;
      }
  unfolding poll_wait register
  poll_wait_first will_wake w p q h = ground arith

  pub status_new :
      (p : P) (w : W) (q : WaitQueue P W)
      → status_at (push_entry p w q).heap (length q.heap) ≡ some pending
  unfolding push_entry new
  status_new p w q = ground (arith, get_elem?-concat q.heap (new q.next_id w) (length q.heap))
