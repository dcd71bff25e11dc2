-- ===== src/Executor/WaitQueue/Invariant.antt =====
-- The invariant of the queue: identifiers are given in order and never again, each queued entry has
-- a registration of its own, and that registration is pending.
use leptos_wasi.Prelude.{
  ℕ, suc, ◌+◌, ◌<◌, true, ◌≡◌, ◌≢◌, refl, sym, ◌∙◌, ap, List, [], ◌∷◌, ◌++◌, some, arith, All,
  All-append, All-map, get_elem?, length, length-append, ◌==◌, ltb, get_elem?-concat,
  get_elem?_bound, Bool-cases, Option-cases, inl, inr,
}
use leptos_wasi.Executor.Registration.{WaitRegistration, Heap, is_pending, is_pending_at, new}
use leptos_wasi.Executor.Registration.Laws.{id_at, pending_at}
use leptos_wasi.Executor.WaitQueue.{
  TableEntry, WaitQueue, default, push_entry, register, filter_pending, u64_mod,
}

module _ {P : Type 0} where
  -- No entry holds the registration `i`.
  abbrev pub Fresh : ℕ → List (TableEntry P) → Type 0
  Fresh i = All (λ e. e.registration ≢ i)

  abbrev pub Distinct : List (TableEntry P) → Type 0
  Distinct [] = Unit
  Distinct (e ∷ es) = Fresh e.registration es × Distinct es

  module _ {W : Type 0} where
    abbrev pub IsLive : Heap W → TableEntry P → Type 0
    IsLive heap e = is_pending_at heap e.registration ≡ true

    pub record IsValid (q : WaitQueue P W) : Type 0 where
      pub next : q.next_id ≡ suc (length q.heap)
      pub numbered : (i : ℕ) (r : WaitRegistration W) → get_elem? q.heap i ≡ some r → r.id ≡ suc i
      pub distinct : Distinct q.entries
      pub live : All (IsLive q.heap) q.entries

    pub IsLive-bound :
        (heap : Heap W) (e : TableEntry P) → IsLive heap e → e.registration < length heap
    IsLive-bound heap e h =
        let (r, at, _) = pending_at heap e.registration h in
        get_elem?_bound heap e.registration r at

    -- With only pending entries nothing is filtered out.
    pub filter_pending-IsLive :
        (heap : Heap W) (es : List (TableEntry P))
        → All (IsLive heap) es
        → filter_pending heap es ≡ es
    unfolding filter_pending
    filter_pending-IsLive heap [] h = refl
    filter_pending-IsLive heap (e ∷ es) h = rw h.0 (ap (◌∷◌ e) (filter_pending-IsLive heap es h.1))

    pub default-IsValid : IsValid default
    unfolding default
    default-IsValid = record {
      next = refl;
      numbered = λ i r h. absurd (cc h);
      distinct = tt;
      live = tt;
    }

-- A change of statuses, wakers and entries that leaves identifiers alone keeps the invariant, if the
-- entries stay distinct and live.
pub IsValid-of_ids :
    {P W : Type 0} (q q' : WaitQueue P W)
    → IsValid q
    → q'.next_id ≡ q.next_id
    → length q'.heap ≡ length q.heap
    → ((i : ℕ) → id_at q'.heap i ≡ id_at q.heap i)
    → Distinct q'.entries
    → All (IsLive q'.heap) q'.entries
    → IsValid q'
IsValid-of_ids q q' v next size ids d l = record {
  next = next ∙ v.next ∙ ap suc (sym size);
  numbered = λ i r h. elim (Option-cases (get_elem? q.heap i)) [
    | inl e ↦ absurd (ground (arith, ids i))
    | inr (old, e) ↦ ground (arith, ids i, v.numbered i old e)
  ];
  distinct = d;
  live = l;
}

Distinct-concat :
    {P : Type 0} (es : List (TableEntry P)) (e : TableEntry P)
    → Distinct es
    → Fresh e.registration es
    → Distinct (es ++ e ∷ [])
Distinct-concat [] e d f = (tt, tt)
Distinct-concat (x ∷ es) e d f =
    (All-append _ es (e ∷ []) d.0 ((λ h. f.0 (sym h)), tt), Distinct-concat es e d.1 f.1)

module _ {P W : Type 0} where
  IsLive-concat :
      (heap : Heap W) (r : WaitRegistration W) (e : TableEntry P)
      → IsLive heap e
      → IsLive (heap ++ r ∷ []) e
  unfolding is_pending_at
  IsLive-concat heap r e h =
      ground (arith, IsLive-bound heap e h, get_elem?-concat heap r e.registration)

  IsLive-new :
      (heap : Heap W) (id : ℕ) (w : W) (p : P)
      → IsLive (heap ++ new id w ∷ []) (record { pollable = p; registration = length heap })
  unfolding is_pending_at is_pending new
  IsLive-new heap id w p = ground (arith, get_elem?-concat heap (new id w) (length heap))

  pub bound-Fresh :
      (heap : Heap W) (es : List (TableEntry P)) → All (IsLive heap) es → Fresh (length heap) es
  bound-Fresh heap es h =
      All-map _ _ es (λ e l. let b = IsLive-bound heap e l in λ same. omega arith) h

  pub push_entry-IsValid :
      (p : P) (w : W) (q : WaitQueue P W) → IsValid q → IsValid (push_entry p w q)
  unfolding push_entry
  push_entry-IsValid p w q v = record {
    next = omega (arith, v.next, length-append q.heap (new q.next_id w ∷ []));
    numbered = λ i r h. numbered i r h;
    distinct = Distinct-concat q.entries _ v.distinct (bound-Fresh q.heap q.entries v.live);
    live =
        All-append _ q.entries _ (All-map _ _ q.entries (IsLive-concat q.heap _) v.live)
          (IsLive-new q.heap q.next_id w p, tt);
  }
    where
      numbered :
          (i : ℕ) (r : WaitRegistration W)
          → get_elem? (q.heap ++ new q.next_id w ∷ []) i ≡ some r
          → r.id ≡ suc i
      numbered i r h = elim (Bool-cases (i == length q.heap)) [
        | inl e ↦ unfold new in ground (arith, get_elem?-concat q.heap (new q.next_id w) i, v.next)
        | inr e ↦ v.numbered i r (sym (rw e at (get_elem?-concat q.heap (new q.next_id w) i)) ∙ h)
      ]

  -- Registering keeps the invariant, also when the identifiers are exhausted.
  pub register-IsValid :
      (p : P) (w : W) (q : WaitQueue P W) → IsValid q → IsValid (register p w q).1
  unfolding register
  register-IsValid p w q v = elim (Bool-cases (ltb (q.next_id + 1) u64_mod)) [
    | inl e ↦ rw e (push_entry-IsValid p w q v)
    | inr e ↦ rw e v
  ]
