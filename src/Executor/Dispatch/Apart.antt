-- ===== src/Executor/Dispatch/Apart.antt =====
-- The entries that are served and those that are kept hold different registrations.
use leptos_wasi.Prelude.{ℕ, Bool, true, false, ◌≡◌, ◌≢◌, refl, List, [], ◌∷◌, arith, All}
use leptos_wasi.Executor.WaitQueue.{TableEntry}
use leptos_wasi.Executor.WaitQueue.Invariant.{Fresh, Distinct}
use leptos_wasi.Executor.Dispatch.Selected.{chosen, unchosen, All-chosen, All-unchosen}
use leptos_wasi.Executor.Dispatch.Served.{holds}

Fresh-holds : {P : Type 0} (i : ℕ) (es : List (TableEntry P)) → Fresh i es → holds i es ≡ false
Fresh-holds i [] h = refl
Fresh-holds i (e ∷ es) h = ground (arith, h.0, Fresh-holds i es h.1)

not_held_cons :
    {P : Type 0} (e : TableEntry P) (taken xs : List (TableEntry P))
    → All (λ x. x.registration ≢ e.registration) xs
    → All (λ x. holds x.registration taken ≡ false) xs
    → All (λ x. holds x.registration (e ∷ taken) ≡ false) xs
not_held_cons e taken [] p q = tt
not_held_cons e taken (x ∷ xs) p q = (ground (arith, p.0, q.0), not_held_cons e taken xs p.1 q.1)

pub not_held :
    {P : Type 0} (bs : List Bool) (es : List (TableEntry P))
    → Distinct es
    → All (λ e. holds e.registration (chosen bs es) ≡ false) (unchosen bs es)
not_held bs [] d = tt
not_held [] (e ∷ es) d = tt
not_held (true ∷ bs) (e ∷ es) d =
    not_held_cons e (chosen bs es) (unchosen bs es)
      (All-unchosen (λ x. x.registration ≢ e.registration) bs es d.0) (not_held bs es d.1)
not_held (false ∷ bs) (e ∷ es) d =
    (Fresh-holds e.registration (chosen bs es) (All-chosen _ bs es d.0), not_held bs es d.1)

pub Distinct-unchosen :
    {P : Type 0} (bs : List Bool) (es : List (TableEntry P))
    → Distinct es
    → Distinct (unchosen bs es)
Distinct-unchosen bs [] d = tt
Distinct-unchosen [] (e ∷ es) d = tt
Distinct-unchosen (true ∷ bs) (e ∷ es) d = Distinct-unchosen bs es d.1
Distinct-unchosen (false ∷ bs) (e ∷ es) d = (All-unchosen _ bs es d.0, Distinct-unchosen bs es d.1)
