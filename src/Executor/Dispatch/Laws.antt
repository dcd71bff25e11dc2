-- ===== src/Executor/Dispatch/Laws.antt =====
-- The contract of `dispatch_ready` and `sweep_ready`, and their agreement.
use mathlib.Core.Path.{subst₂}
use leptos_wasi.Prelude.{
  ℕ, Bool, true, false, ◌≡◌, refl, ap, ◌∙◌, List, [], ◌∷◌, some, arith, length, map, if◌then◌else◌,
  any, All, is_empty, inl, inr, Bool-cases, length-map,
}
use leptos_wasi.Executor.Registration.{ready}
use leptos_wasi.Executor.Registration.Laws.{
  status_at, waker_at, id_at, pending_at, is_pending_at_of_status,
}
use leptos_wasi.Executor.WaitQueue.{TableEntry, WaitQueue, requeue_pending}
use leptos_wasi.Executor.WaitQueue.Invariant.{IsLive, IsValid, IsValid-of_ids}
use leptos_wasi.Executor.Dispatch.{
  Completed, ready_flags, after_loop, Dispatched, dispatch_ready, sweep_ready,
}
use leptos_wasi.Executor.Dispatch.Selected.{
  chosen, unchosen, selected, remaining, chosen-mark, unchosen-mark, All-unchosen,
}
use leptos_wasi.Executor.Dispatch.Served.{
  holds, wakers_of, IsServed, complete-IsServed, sweep-complete, sweep-any,
}
use leptos_wasi.Executor.Dispatch.Apart.{not_held, Distinct-unchosen}
use leptos_wasi.Executor.Dispatch.Live.{
  ready_flags-mark, ready_flags-length, dispatch_live, sweep_live,
}

is_empty-nil {ℓ} : {A : Type ℓ} (xs : List A) → is_empty xs ≡ true → xs ≡ []
is_empty-nil [] h = refl
is_empty-nil (x ∷ xs) h = absurd (cc h)

module _ {P W : Type 0} where
  -- The queue after a loop that served `taken` and kept `left`.
  pub record IsDispatched (q : WaitQueue P W) (taken left : List (TableEntry P))
      (d : Dispatched P W) : Type 0 where
    pub woken : map some d.woken ≡ wakers_of q.heap taken
    pub entries : d.queue.entries ≡ left
    pub next_id : d.queue.next_id ≡ q.next_id
    pub status :
        (i : ℕ)
        → status_at d.queue.heap i ≡ (if holds i taken then some ready else status_at q.heap i)
    pub wakers : (i : ℕ) → waker_at d.queue.heap i ≡ waker_at q.heap i
    pub ids : (i : ℕ) → id_at d.queue.heap i ≡ id_at q.heap i
    pub size : length d.queue.heap ≡ length q.heap

  nothing-IsDispatched :
      (q : WaitQueue P W) (es : List (TableEntry P)) (bs : List Bool) (p : Bool)
      → es ≡ []
      → IsDispatched q
          (chosen bs es)
          (unchosen bs es)
          (record { progress = p; woken = []; queue = record q { entries = [] } })
  nothing-IsDispatched q [] bs p e = record {
    woken = refl;
    entries = refl;
    next_id = refl;
    status = λ i. refl;
    wakers = λ i. refl;
    ids = λ i. refl;
    size = refl;
  }
  nothing-IsDispatched q (x ∷ es) bs p e = absurd (cc e)

  served-IsDispatched :
      (q : WaitQueue P W) (taken left : List (TableEntry P)) (c : Completed P W) (p : Bool)
      → IsServed q.heap taken left c
      → IsDispatched q taken left (record {
        progress = p;
        woken = c.task_wakers;
        queue = after_loop c (record q { entries = [] });
      })
  unfolding after_loop requeue_pending
  served-IsDispatched q taken left c p s = record {
    woken = s.woken;
    entries = s.kept;
    next_id = refl;
    status = s.status;
    wakers = s.wakers;
    ids = s.ids;
    size = s.size;
  }

  dispatch-chosen :
      (poll_host : List P → List ℕ) (q : WaitQueue P W)
      → IsValid q
      → IsDispatched q
          (chosen (ready_flags poll_host q.entries) q.entries)
          (unchosen (ready_flags poll_host q.entries) q.entries)
          (dispatch_ready poll_host q)
  dispatch-chosen poll_host q v = elim (Bool-cases (is_empty q.entries)) [
    | inl e ↦
        rw (dispatch_live poll_host q v, e)
          (nothing-IsDispatched q q.entries _ false (is_empty-nil q.entries e))
    | inr e ↦
        rw (dispatch_live poll_host q v, e)
          (served-IsDispatched q _ _ _ true (
            complete-IsServed q.heap q.entries _ (ready_flags-length poll_host q.entries) v.distinct
              v.live))
  ]

  sweep-chosen :
      (is_ready : P → Bool) (q : WaitQueue P W)
      → IsValid q
      → IsDispatched q
          (chosen (map (λ e. is_ready e.pollable) q.entries) q.entries)
          (unchosen (map (λ e. is_ready e.pollable) q.entries) q.entries)
          (sweep_ready is_ready q)
  sweep-chosen is_ready q v = elim (Bool-cases (is_empty q.entries)) [
    | inl e ↦
        rw (sweep_live is_ready q v, e)
          (nothing-IsDispatched q q.entries _ false (is_empty-nil q.entries e))
    | inr e ↦
        rw (sweep_live is_ready q v, e, sweep-complete is_ready q.heap q.entries)
          (served-IsDispatched q _ _ _ _ (
            complete-IsServed q.heap q.entries _ (length-map q.entries (λ e. is_ready e.pollable))
              v.distinct v.live))
  ]

  kept-IsLive :
      (q : WaitQueue P W) (taken left xs : List (TableEntry P)) (d : Dispatched P W)
      → IsDispatched q taken left d
      → All (λ e. holds e.registration taken ≡ false) xs
      → All (IsLive q.heap) xs
      → All (IsLive d.queue.heap) xs
  kept-IsLive q taken left [] d s f h = tt
  kept-IsLive q taken left (e ∷ es) d s f h =
      let (r, at, p) = pending_at q.heap e.registration h.0 in
      (
        is_pending_at_of_status d.queue.heap e.registration
            (ground (arith, s.status e.registration, f.0)),
        kept-IsLive q taken left es d s f.1 h.1,
      )

  dispatched-IsValid :
      (q : WaitQueue P W) (bs : List Bool) (d : Dispatched P W)
      → IsValid q
      → IsDispatched q (chosen bs q.entries) (unchosen bs q.entries) d
      → IsValid d.queue
  dispatched-IsValid q bs d v s =
      IsValid-of_ids q d.queue v s.next_id s.size s.ids
        (rw s.entries (Distinct-unchosen bs q.entries v.distinct))
        (rw s.entries (
          kept-IsLive q _ _ _ d s (not_held bs q.entries v.distinct)
            (All-unchosen _ bs q.entries v.live)))

  -- `dispatch_ready` on a valid queue, with the list of indices that the host reports ready: the
  -- entries at those positions are marked ready and their wakers woken, oldest first and once each,
  -- whatever the order, duplicates or excess of the list; the other entries stay in order, with
  -- their registrations as they were; and the queue stays valid.
  pub dispatch_ready-IsDispatched :
      (poll_host : List P → List ℕ) (q : WaitQueue P W)
      → IsValid q
      → IsDispatched q
          (selected (poll_host (map (λ e. e.pollable) q.entries)) 0 q.entries)
          (remaining (poll_host (map (λ e. e.pollable) q.entries)) 0 q.entries)
          (dispatch_ready poll_host q)
        × IsValid (dispatch_ready poll_host q).queue
  dispatch_ready-IsDispatched poll_host q v =
      let s = dispatch-chosen poll_host q v in
      let es = q.entries in
      let taken = ap (λ bs. chosen bs es) (ready_flags-mark poll_host es) ∙ chosen-mark _ 0 es in
      let left = ap (λ bs. unchosen bs es) (ready_flags-mark poll_host es) ∙ unchosen-mark _ 0 es in
      (
        subst₂ (λ t l. IsDispatched q t l (dispatch_ready poll_host q)) taken left s,
        dispatched-IsValid q _ _ v s,
      )

  -- `sweep_ready` on a valid queue serves exactly the entries whose pollable the host calls ready,
  -- keeps the queue valid, and reports progress exactly when there was one such entry.
  pub sweep_ready-IsDispatched :
      (is_ready : P → Bool) (q : WaitQueue P W)
      → IsValid q
      → IsDispatched q
          (chosen (map (λ e. is_ready e.pollable) q.entries) q.entries)
          (unchosen (map (λ e. is_ready e.pollable) q.entries) q.entries)
          (sweep_ready is_ready q)
        × IsValid (sweep_ready is_ready q).queue
        × ((sweep_ready is_ready q).progress ≡ any (λ e. is_ready e.pollable) q.entries)
  sweep_ready-IsDispatched is_ready q v =
      (sweep-chosen is_ready q v, dispatched-IsValid q _ _ v (sweep-chosen is_ready q v), progress)
    where
      progress : (sweep_ready is_ready q).progress ≡ any (λ e. is_ready e.pollable) q.entries
      progress = elim (Bool-cases (is_empty q.entries)) [
        | inl e ↦ rw (sweep_live is_ready q v, is_empty-nil q.entries e) refl
        | inr e ↦ rw (sweep_live is_ready q v, e) (sweep-any is_ready q.heap q.entries)
      ]

  -- The two functions agree: when `Poller::poll` reports exactly the positions of the pollables
  -- that `Poller::ready` accepts, they wake the same wakers and leave the same queue.
  pub sweep_ready-eq-dispatch_ready :
      (is_ready : P → Bool) (poll_host : List P → List ℕ) (q : WaitQueue P W)
      → IsValid q
      → ready_flags poll_host q.entries ≡ map (λ e. is_ready e.pollable) q.entries
      → ((sweep_ready is_ready q).woken ≡ (dispatch_ready poll_host q).woken)
        × ((sweep_ready is_ready q).queue ≡ (dispatch_ready poll_host q).queue)
  sweep_ready-eq-dispatch_ready is_ready poll_host q v h = elim (Bool-cases (is_empty q.entries)) [
    | inl e ↦ rw (sweep_live is_ready q v, dispatch_live poll_host q v, e) (refl, refl)
    | inr e ↦
        rw
          (
            sweep_live is_ready q v,
            dispatch_live poll_host q v,
            e,
            h,
            sweep-complete is_ready q.heap q.entries,
          )
          (refl, refl)
  ]
