-- ===== src/Executor/WaitQueue/Removal.antt =====
-- `WaitQueue::cancel` removes by identifier; on a valid queue that is the entry of one registration.
use leptos_wasi.Prelude.{
  ℕ, suc, ◌≡◌, refl, List, [], ◌∷◌, ◌++◌, some, arith, ◌==◌, if◌then◌else◌, All, Bool-cases,
  Option-cases, inl, inr, get_elem?,
}
use leptos_wasi.Executor.Registration.{Heap}
use leptos_wasi.Executor.Registration.Laws.{id_at, pending_at}
use leptos_wasi.Executor.WaitQueue.{TableEntry, WaitQueue, has_id, remove_first}
use leptos_wasi.Executor.WaitQueue.Invariant.{Fresh, Distinct, IsLive, IsValid}

module _ {P : Type 0} where
  -- The entries that hold another registration.
  abbrev pub without : ℕ → List (TableEntry P) → List (TableEntry P)
  without i [] = []
  without i (e ∷ es) = let rest = without i es in if e.registration == i then rest else e ∷ rest

  without-Fresh : (i : ℕ) (es : List (TableEntry P)) → Fresh i es → without i es ≡ es
  without-Fresh i [] h = refl
  without-Fresh i (e ∷ es) h = ground (arith, h.0, without-Fresh i es h.1)

  -- A fresh registration at the end is the only entry that goes.
  pub without-last :
      (e : TableEntry P) (es : List (TableEntry P))
      → Fresh e.registration es
      → without e.registration (es ++ e ∷ []) ≡ es
  without-last e [] h = ground arith
  without-last e (x ∷ es) h = ground (arith, h.0, without-last e es h.1)

  pub Fresh-without : (i : ℕ) (es : List (TableEntry P)) → Fresh i (without i es)
  Fresh-without i [] = tt
  Fresh-without i (e ∷ es) = elim (Bool-cases (e.registration == i)) [
    | inl s ↦ rw s (Fresh-without i es)
    | inr s ↦ rw s (ground arith, Fresh-without i es)
  ]

  pub All-without {κ} :
      (Q : TableEntry P → Type κ) (i : ℕ) (es : List (TableEntry P))
      → All Q es
      → All Q (without i es)
  All-without Q i [] h = tt
  All-without Q i (e ∷ es) h = elim (Bool-cases (e.registration == i)) [
    | inl s ↦ rw s (All-without Q i es h.1)
    | inr s ↦ rw s (h.0, All-without Q i es h.1)
  ]

  pub Distinct-without : (i : ℕ) (es : List (TableEntry P)) → Distinct es → Distinct (without i es)
  Distinct-without i [] d = tt
  Distinct-without i (e ∷ es) d = elim (Bool-cases (e.registration == i)) [
    | inl s ↦ rw s (Distinct-without i es d.1)
    | inr s ↦ rw s (All-without _ i es d.0, Distinct-without i es d.1)
  ]

module _ {P W : Type 0} where
  -- The identifier of the entry's registration is its index plus one.
  abbrev pub IsNumbered : Heap W → TableEntry P → Type 0
  IsNumbered heap e = id_at heap e.registration ≡ some (suc e.registration)

  has_id_lem :
      (heap : Heap W) (i : ℕ) (e : TableEntry P)
      → IsNumbered heap e
      → has_id heap (suc i) e ≡ (e.registration == i)
  unfolding has_id
  has_id_lem heap i e h = elim (Option-cases (get_elem? heap e.registration)) [
    | inl at ↦ absurd (ground arith)
    | inr (r, at) ↦ ground arith
  ]

  pub remove_first-without :
      (heap : Heap W) (i : ℕ) (es : List (TableEntry P))
      → All (IsNumbered heap) es
      → Distinct es
      → remove_first heap (suc i) es ≡ without i es
  unfolding remove_first
  remove_first-without heap i [] n d = refl
  remove_first-without heap i (e ∷ es) n d = elim (Bool-cases (e.registration == i)) [
    | inl s ↦ ground (arith, has_id_lem heap i e n.0, without-Fresh e.registration es d.0)
    | inr s ↦ ground (arith, has_id_lem heap i e n.0, remove_first-without heap i es n.1 d.1)
  ]

  pub live-IsNumbered :
      (q : WaitQueue P W) (es : List (TableEntry P))
      → IsValid q
      → All (IsLive q.heap) es
      → All (IsNumbered q.heap) es
  live-IsNumbered q [] v h = tt
  live-IsNumbered q (e ∷ es) v h =
      let (r, at, _) = pending_at q.heap e.registration h.0 in
      (ground (arith, v.numbered e.registration r at), live-IsNumbered q es v h.1)
