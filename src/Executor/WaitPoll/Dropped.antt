-- ===== src/Executor/WaitPoll/Dropped.antt =====
-- `Drop for WaitPoll`: what dropping a registered future removes.
use leptos_wasi.Prelude.{
  ℕ, true, ◌≡◌, refl, ap, ◌∙◌, List, [], ◌∷◌, some, arith, ◌==◌, if◌then◌else◌, All, get_elem?,
}
use leptos_wasi.Executor.Registration.{Heap, WaitRegistration, cancel_at}
use leptos_wasi.Executor.Registration.Laws.{
  status_at, id_at, pending_at, is_pending_at_of_status, canceled_status, cancel_at-IsCanceled,
}
use leptos_wasi.Executor.WaitQueue.Removal.{
  without, Fresh-without, All-without, Distinct-without, IsNumbered, remove_first-without,
  live-IsNumbered,
}
use leptos_wasi.Executor.WaitQueue.{
  TableEntry, WaitQueue, register, push_entry, has_id, remove_first, u64_mod,
}
use leptos_wasi.Executor.WaitQueue
use leptos_wasi.Executor.WaitQueue.Invariant.{Fresh, IsLive, IsValid, IsValid-of_ids}
use leptos_wasi.Executor.WaitPoll.{registered, drop_registered, drop_wait}

-- The queue after the future of registration `i` was dropped.
pub record IsDropped {P W : Type 0} (i : ℕ) (q q' : WaitQueue P W) : Type 0 where
  pub entries : q'.entries ≡ without i q.entries
  pub status :
      (j : ℕ)
      → status_at q'.heap j
        ≡ (if j == i then canceled_status (status_at q.heap i) else status_at q.heap j)
  pub valid : IsValid q'

module _ {P W : Type 0} where
  without-IsLive :
      (i : ℕ) (q : WaitQueue P W) (heap : Heap W) (es : List (TableEntry P))
      → ((j : ℕ)
          → status_at heap j
            ≡ (if j == i then canceled_status (status_at q.heap i) else status_at q.heap j))
      → Fresh i es
      → All (IsLive q.heap) es
      → All (IsLive heap) es
  without-IsLive i q heap [] s f h = tt
  without-IsLive i q heap (e ∷ es) s f h =
      let (r, at, pend) = pending_at q.heap e.registration h.0 in
      (
        is_pending_at_of_status heap e.registration (ground (arith, s e.registration, f.0)),
        without-IsLive i q heap es s f.1 h.1,
      )

  ids_kept :
      (q : WaitQueue P W) (heap : Heap W) (es : List (TableEntry P))
      → ((j : ℕ) → id_at heap j ≡ id_at q.heap j)
      → All (IsNumbered q.heap) es
      → All (IsNumbered heap) es
  ids_kept q heap [] same h = tt
  ids_kept q heap (e ∷ es) same h = (same e.registration ∙ h.0, ids_kept q heap es same h.1)

  drop_wait_queue :
      (i : ℕ) (q : WaitQueue P W) (r : WaitRegistration W)
      → get_elem? q.heap i ≡ some r
      → drop_wait true (registered i) q ≡ record q {
        heap = cancel_at q.heap i;
        entries = remove_first (cancel_at q.heap i) r.id q.entries;
      }
  unfolding drop_wait WaitQueue.cancel
  drop_wait_queue i q r at = rw (at, drop_registered) refl

  pub drop_wait-IsDropped :
      (i : ℕ) (q : WaitQueue P W) (r : WaitRegistration W)
      → IsValid q
      → get_elem? q.heap i ≡ some r
      → IsDropped i q (drop_wait true (registered i) q)
  drop_wait-IsDropped i q r v at =
      let c = cancel_at-IsCanceled q.heap i r at in
      let numbered =
        ids_kept q (cancel_at q.heap i) q.entries c.ids (live-IsNumbered q q.entries v v.live) in
      let removed =
        ap (λ id. remove_first (cancel_at q.heap i) id q.entries) (v.numbered i r at)
        ∙ remove_first-without (cancel_at q.heap i) i q.entries numbered v.distinct in
      rw (drop_wait_queue i q r at) (record {
        entries = removed;
        status = c.status;
        valid =
            IsValid-of_ids q _ v refl c.size c.ids
              (rw removed (Distinct-without i q.entries v.distinct))
              (rw removed (
                without-IsLive i q _ _ c.status (Fresh-without i q.entries)
                  (All-without _ i q.entries v.live)));
      })
