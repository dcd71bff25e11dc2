-- ===== src/Executor/Dispatch/Fewer.antt =====
-- Progress takes entries out of the queue.
use leptos_wasi.Prelude.{
  ℕ, suc, ◌+◌, ◌≤◌, ◌<◌, Bool, true, false, ◌≡◌, ◌≢◌, List, [], ◌∷◌, arith, length, map, is_empty,
  Bool-cases, inl, inr, length-map,
}
use leptos_wasi.Executor.Registration.{Heap}
use leptos_wasi.Executor.WaitQueue.{
  TableEntry, WaitQueue, filter_pending, take_pending, requeue_pending,
}
use leptos_wasi.Executor.Dispatch.{
  complete_one, complete, unset, ready_flags, after_loop, sweep, dispatch_ready, sweep_ready,
}
use leptos_wasi.Executor.Dispatch.Selected.{elem, mark}
use leptos_wasi.Executor.Dispatch.Live.{ready_flags-mark}

module _ {P W : Type 0} where
  length-filter_pending :
      (heap : Heap W) (es : List (TableEntry P)) → length (filter_pending heap es) ≤ length es
  unfolding filter_pending
  length-filter_pending heap [] = omega arith
  length-filter_pending heap (e ∷ es) = ground (arith, length-filter_pending heap es)

  length-complete :
      (heap : Heap W) (es : List (TableEntry P)) (bs : List Bool)
      → length (complete heap es bs).pending ≤ length es
  unfolding complete
  length-complete heap [] bs = omega arith
  length-complete heap (e ∷ es) [] = omega arith
  length-complete heap (e ∷ es) (true ∷ bs) =
      omega (arith, length-complete (complete_one true e heap).1 es bs)
  length-complete heap (e ∷ es) (false ∷ bs) =
      omega (arith, length-complete (complete_one false e heap).1 es bs)

  -- One index that is reported and in range is enough.
  length-complete-mark :
      (heap : Heap W) (es : List (TableEntry P)) (reported : List ℕ) (i k : ℕ)
      → elem i reported ≡ true
      → k ≤ i
      → i < k + length es
      → length (complete heap es (mark reported k (unset (length es)))).pending < length es
  unfolding complete
  length-complete-mark heap [] reported i k h a b = absurd (omega arith)
  length-complete-mark heap (e ∷ es) reported i k h a b = elim (Bool-cases (elem k reported)) [
    | inl t ↦ rw t (
        omega (
          arith,
          length-complete (complete_one true e heap).1 es
              (mark reported (suc k) (unset (length es))),
        ))
    | inr f ↦
        let apart : k ≢ i = λ same. absurd (cc (h, f, same)) in
        rw f (
          omega (
            arith,
            length-complete-mark (complete_one false e heap).1 es reported i (suc k) h (omega arith)
                (omega arith),
          ))
  ]

  length-sweep :
      (is_ready : P → Bool) (heap : Heap W) (es : List (TableEntry P))
      → length (sweep is_ready heap es).1.pending ≤ length es
  unfolding sweep
  length-sweep is_ready heap [] = omega arith
  length-sweep is_ready heap (e ∷ es) =
      ground (arith, length-sweep is_ready (complete_one (is_ready e.pollable) e heap).1 es)

  pub dispatch_ready-fewer :
      (poll_host : List P → List ℕ) (q : WaitQueue P W)
      → length (dispatch_ready poll_host q).queue.entries ≤ length q.entries
  unfolding dispatch_ready take_pending after_loop requeue_pending
  dispatch_ready-fewer poll_host q = ground (
    arith,
    length-filter_pending q.heap q.entries,
    length-complete q.heap (filter_pending q.heap q.entries)
        (ready_flags poll_host (filter_pending q.heap q.entries)),
  )

  -- `dispatch_ready` that makes progress, on a host that reports some pollable that it was asked for.
  pub dispatch_ready-fewer_strict :
      (poll_host : List P → List ℕ) (q : WaitQueue P W)
      → ((ps : List P) → 0 < length ps → (i : ℕ) × (elem i (poll_host ps) ≡ true) × (i < length ps))
      → (dispatch_ready poll_host q).progress ≡ true
      → length (dispatch_ready poll_host q).queue.entries < length q.entries
  unfolding dispatch_ready take_pending after_loop requeue_pending
  dispatch_ready-fewer_strict poll_host q answers h =
      elim (Bool-cases (is_empty (filter_pending q.heap q.entries))) [
        | inl e ↦ absurd (ground arith)
        | inr e ↦ rw e (
            omega (
              arith,
              served (filter_pending q.heap q.entries) e,
              length-filter_pending q.heap q.entries,
            ))
      ]
    where
      asked :
          (es : List (TableEntry P))
          → is_empty es ≡ false
          → 0 < length (map (λ (x : TableEntry P). x.pollable) es)
      asked [] e = absurd (cc e)
      asked (x ∷ es) e = omega arith

      served :
          (es : List (TableEntry P))
          → is_empty es ≡ false
          → length (complete q.heap es (ready_flags poll_host es)).pending < length es
      served es e =
          let some_asked : 0 < length (map (λ (x : TableEntry P). x.pollable) es) = asked es e in
          let (i, reported, bound) = answers (map (λ x. x.pollable) es) some_asked in
          rw (ready_flags-mark poll_host es) (
            length-complete-mark q.heap es _ i 0 reported (omega arith)
              (omega (arith, length-map es (λ (x : TableEntry P). x.pollable))))

  pub sweep_ready-fewer :
      (is_ready : P → Bool) (q : WaitQueue P W)
      → length (sweep_ready is_ready q).queue.entries ≤ length q.entries
  unfolding sweep_ready take_pending after_loop requeue_pending
  sweep_ready-fewer is_ready q = ground (
    arith,
    length-filter_pending q.heap q.entries,
    length-sweep is_ready q.heap (filter_pending q.heap q.entries),
  )
