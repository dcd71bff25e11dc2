-- ===== src/Executor/Registration/Laws.antt =====
-- Status, waker and identifier of a registration, and what each method does to them.
use leptos_wasi.Prelude.{
  ℕ, true, ◌≡◌, Option, none, some, get_elem?, length, arith, if◌then◌else◌, ◌==◌, get_elem?-set,
  Option-cases, inl, inr, length-set,
}
use leptos_wasi.Executor.Registration.{
  RegistrationStatus, pending, ready, canceled, WaitRegistration, Heap, mark_ready, cancel,
  is_pending_at, mark_ready_at, cancel_at,
}

-- A registration that was ready stays ready.
abbrev pub canceled_status : Option RegistrationStatus → Option RegistrationStatus
canceled_status none = none
canceled_status (some pending) = some canceled
canceled_status (some ready) = some ready
canceled_status (some canceled) = some canceled

module _ {W : Type 0} where
  abbrev pub status_at : Heap W → ℕ → Option RegistrationStatus
  status_at heap i = elim (get_elem? heap i) [ none ↦ none | some r ↦ some r.status ]

  abbrev pub waker_at : Heap W → ℕ → Option W
  waker_at heap i = elim (get_elem? heap i) [ none ↦ none | some r ↦ some r.task_waker ]

  abbrev pub id_at : Heap W → ℕ → Option ℕ
  id_at heap i = elim (get_elem? heap i) [ none ↦ none | some r ↦ some r.id ]

  -- What a registration that is pending looks like.
  pub pending_at :
      (heap : Heap W) (i : ℕ)
      → is_pending_at heap i ≡ true
      → (r : WaitRegistration W) × (get_elem? heap i ≡ some r) × (r.status ≡ pending)
  unfolding is_pending_at
  pending_at heap i h = elim (Option-cases (get_elem? heap i)) [
    | inl e ↦ absurd (ground arith)
    | inr (r, e) ↦ (r, e, ground arith)
  ]

  pub is_pending_at_of_status :
      (heap : Heap W) (i : ℕ) → status_at heap i ≡ some pending → is_pending_at heap i ≡ true
  unfolding is_pending_at
  is_pending_at_of_status heap i h = elim (Option-cases (get_elem? heap i)) [
    | inl e ↦ ground arith
    | inr (r, e) ↦ ground arith
  ]

  -- What `mark_ready` does on the heap to a registration that is pending.
  pub record IsMarked (heap : Heap W) (i : ℕ) : Type 0 where
    pub waker : W
    pub had : waker_at heap i ≡ some waker
    pub gives : (mark_ready_at heap i).0 ≡ some waker
    pub status :
        (j : ℕ)
        → status_at (mark_ready_at heap i).1 j ≡ (if j == i then some ready else status_at heap j)
    pub wakers : (j : ℕ) → waker_at (mark_ready_at heap i).1 j ≡ waker_at heap j
    pub ids : (j : ℕ) → id_at (mark_ready_at heap i).1 j ≡ id_at heap j
    pub size : length (mark_ready_at heap i).1 ≡ length heap

  pub mark_ready_at-IsMarked :
      (heap : Heap W) (i : ℕ) → is_pending_at heap i ≡ true → IsMarked heap i
  unfolding mark_ready_at mark_ready
  mark_ready_at-IsMarked heap i h =
      let (r, e, p) = pending_at heap i h in
      record {
        waker = r.task_waker;
        had = ground arith;
        gives = ground arith;
        status = λ j. ground (arith, get_elem?-set heap i j (record r { status = ready }) r e);
        wakers = λ j. ground (arith, get_elem?-set heap i j (record r { status = ready }) r e);
        ids = λ j. ground (arith, get_elem?-set heap i j (record r { status = ready }) r e);
        size = ground (arith, length-set heap i (record r { status = ready }));
      }

  -- What `cancel` does on the heap.
  pub record IsCanceled (heap : Heap W) (i : ℕ) : Type 0 where
    pub status :
        (j : ℕ)
        → status_at (cancel_at heap i) j
          ≡ (if j == i then canceled_status (status_at heap i) else status_at heap j)
    pub ids : (j : ℕ) → id_at (cancel_at heap i) j ≡ id_at heap j
    pub size : length (cancel_at heap i) ≡ length heap

  pub cancel_at-IsCanceled :
      (heap : Heap W) (i : ℕ) (r : WaitRegistration W)
      → get_elem? heap i ≡ some r
      → IsCanceled heap i
  unfolding cancel_at cancel
  cancel_at-IsCanceled heap i r e = record {
    status = λ j. ground (
      arith,
      get_elem?-set heap i j (record r { status = canceled }) r e,
      get_elem?-set heap i j r r e,
    );
    ids = λ j. ground (
      arith,
      get_elem?-set heap i j (record r { status = canceled }) r e,
      get_elem?-set heap i j r r e,
    );
    size = ground (arith, length-set heap i (record r { status = canceled }), length-set heap i r);
  }
