-- ===== src/Executor/Dispatch/Served.antt =====
-- What the loops over the taken entries do: each flagged entry is marked and gives its waker.
use leptos_wasi.Prelude.{
  ℕ, Bool, true, false, ◌||◌, ◌≡◌, refl, ap, ◌∙◌, List, [], ◌∷◌, Option, some, arith, length, map,
  ◌==◌, if◌then◌else◌, any, All,
}
use leptos_wasi.Executor.Registration.{ready, Heap, mark_ready_at}
use leptos_wasi.Executor.Registration.Laws.{
  status_at, waker_at, id_at, pending_at, is_pending_at_of_status, IsMarked, mark_ready_at-IsMarked,
}
use leptos_wasi.Executor.WaitQueue.{TableEntry}
use leptos_wasi.Executor.WaitQueue.Invariant.{Fresh, Distinct, IsLive}
use leptos_wasi.Executor.Dispatch.{Completed, complete_one, complete, sweep}
use leptos_wasi.Executor.Dispatch.Selected.{chosen, unchosen}

-- Some entry of the list holds the registration.
abbrev pub holds : {P : Type 0} → ℕ → List (TableEntry P) → Bool
holds i = any (λ e. i == e.registration)

module _ {P W : Type 0} where
  abbrev pub wakers_of : Heap W → List (TableEntry P) → List (Option W)
  wakers_of heap = map (λ e. waker_at heap e.registration)

  -- The outcome of a loop over `es` that completed `taken` and kept `kept`.
  pub record IsServed (heap : Heap W) (taken left : List (TableEntry P)) (c : Completed P W)
      : Type 0 where
    pub woken : map some c.task_wakers ≡ wakers_of heap taken
    pub kept : c.pending ≡ left
    pub status :
        (i : ℕ) → status_at c.heap i ≡ (if holds i taken then some ready else status_at heap i)
    pub wakers : (i : ℕ) → waker_at c.heap i ≡ waker_at heap i
    pub ids : (i : ℕ) → id_at c.heap i ≡ id_at heap i
    pub size : length c.heap ≡ length heap

  -- Marking one registration leaves the entries of the others live.
  IsLive-marked :
      (heap : Heap W) (i : ℕ) (es : List (TableEntry P))
      → IsMarked heap i
      → Fresh i es
      → All (IsLive heap) es
      → All (IsLive (mark_ready_at heap i).1) es
  IsLive-marked heap i [] m f h = tt
  IsLive-marked heap i (e ∷ es) m f h =
      let (r, at, p) = pending_at heap e.registration h.0 in
      (
        is_pending_at_of_status (mark_ready_at heap i).1 e.registration
            (ground (arith, m.status e.registration)),
        IsLive-marked heap i es m f.1 h.1,
      )

  wakers_of-marked :
      (heap : Heap W) (i : ℕ) (es : List (TableEntry P))
      → IsMarked heap i
      → wakers_of (mark_ready_at heap i).1 es ≡ wakers_of heap es
  wakers_of-marked heap i [] m = refl
  wakers_of-marked heap i (e ∷ es) m =
      rw (m.wakers e.registration)
        (ap (◌∷◌ (waker_at heap e.registration)) (wakers_of-marked heap i es m))

  pub complete-IsServed :
      (heap : Heap W) (es : List (TableEntry P)) (bs : List Bool)
      → length bs ≡ length es
      → Distinct es
      → All (IsLive heap) es
      → IsServed heap (chosen bs es) (unchosen bs es) (complete heap es bs)
  unfolding complete complete_one
  complete-IsServed heap [] bs n d h = record {
    woken = refl;
    kept = refl;
    status = λ i. refl;
    wakers = λ i. refl;
    ids = λ i. refl;
    size = refl;
  }
  complete-IsServed heap (e ∷ es) [] n d h = absurd (omega arith)
  complete-IsServed heap (e ∷ es) (false ∷ bs) n d h =
      let s = complete-IsServed heap es bs (omega arith) d.1 h.1 in
      record {
        woken = s.woken;
        kept = ap (◌∷◌ e) s.kept;
        status = s.status;
        wakers = s.wakers;
        ids = s.ids;
        size = s.size;
      }
  complete-IsServed heap (e ∷ es) (true ∷ bs) n d h =
      let m = mark_ready_at-IsMarked heap e.registration h.0 in
      let live = IsLive-marked heap e.registration es m d.0 h.1 in
      let s =
        complete-IsServed (mark_ready_at heap e.registration).1 es bs (omega arith) d.1 live in
      record {
        woken =
            rw (m.gives, m.had)
              (ap (◌∷◌ (some m.waker))
                (s.woken ∙ wakers_of-marked heap e.registration (chosen bs es) m));
        kept = s.kept;
        status = λ i. s.status i ∙ ground (arith, m.status i);
        wakers = λ i. s.wakers i ∙ m.wakers i;
        ids = λ i. s.ids i ∙ m.ids i;
        size = s.size ∙ m.size;
      }

  -- `sweep_ready`'s loop is `dispatch_ready`'s with the flags that `Poller::ready` gives.
  pub sweep-complete :
      (is_ready : P → Bool) (heap : Heap W) (es : List (TableEntry P))
      → (sweep is_ready heap es).1 ≡ complete heap es (map (λ e. is_ready e.pollable) es)
  unfolding sweep complete
  sweep-complete is_ready heap [] = refl
  sweep-complete is_ready heap (e ∷ es) =
      rw (sweep-complete is_ready (complete_one (is_ready e.pollable) e heap).1 es) refl

  pub sweep-any :
      (is_ready : P → Bool) (heap : Heap W) (es : List (TableEntry P))
      → (sweep is_ready heap es).0 ≡ any (λ e. is_ready e.pollable) es
  unfolding sweep
  sweep-any is_ready heap [] = refl
  sweep-any is_ready heap (e ∷ es) =
      ap (◌||◌ (is_ready e.pollable))
        (sweep-any is_ready (complete_one (is_ready e.pollable) e heap).1 es)
