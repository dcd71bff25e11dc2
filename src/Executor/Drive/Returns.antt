-- ===== src/Executor/Drive/Returns.antt =====
-- The loop of `drive_until_output` returns.
use leptos_wasi.Prelude.{
  ℕ, zero, suc, ◌+◌, ◌≤◌, ◌<◌, Bool, true, false, List, [], ◌∷◌, Option, some, Result, err, ◌≡◌,
  refl, ap, sym, ◌∙◌, subst, arith, length, Bool-cases, inl, inr, if◌then◌else◌,
}
use leptos_wasi.Executor.{ExecutorError, reentrant_poll}
use leptos_wasi.Executor.Dispatch.{Dispatched, dispatch_ready, sweep_ready}
use leptos_wasi.Executor.Dispatch.Selected.{elem}
use leptos_wasi.Executor.Dispatch.Fewer.{
  dispatch_ready-fewer, dispatch_ready-fewer_strict, sweep_ready-fewer,
}
use leptos_wasi.Executor.Drive.{
  Mode, preemptive, stalling, HostWait, sweeping, blocking, host_wait, State, Env, Flow, leave,
  go_on, then_do, wake_all, run_pool, run_guest, settle, poll_host, finish_round, drive_round,
  after_round, drive_until_output,
}
use leptos_wasi.Executor.Drive.Outcomes.{
  guest_ran, host_polled, consume-go_on, receive-go_on, poll_host_idle, settle_progress, IsEnded,
  drive_until_output-IsEnded,
}

module _ {G P W T : Type 0} (env : Env G P W T) (work : G → ℕ) where
  -- What a state still has to do: the work of its tasks, and its waiting pollables.
  abbrev pub to_do : State G P W → ℕ
  to_do s = work s.guest + length s.queue.entries

  -- Tasks that come to an end, and a host that keeps the contract of its poll. A task that runs spends
  -- more work than it registers pollables, a waker adds nothing, and a poll for one pollable or more
  -- reports one of them.
  pub record IsFinite : Type 0 where
    pub run_spends :
        (s : State G P W) → (env.try_run_one s).0 ≡ true → to_do (env.try_run_one s).1 < to_do s
    pub run_keeps :
        (s : State G P W) → (env.try_run_one s).0 ≡ false → to_do (env.try_run_one s).1 ≤ to_do s
    pub stall_keeps : (s : State G P W) → to_do (env.run_until_stalled s) ≤ to_do s
    pub wake_keeps : (w : W) (s : State G P W) → to_do (env.wake w s) ≤ to_do s
    pub poll_answers :
        (s : State G P W) (ps : List P)
        → 0 < length ps
        → (i : ℕ) × (elem i (env.poll_host s ps) ≡ true) × (i < length ps)

  module _ (mode : Mode) (finite : IsFinite) where
    -- The guest: less is to do where it made progress, and never more.
    run_pool-keeps : (m : Mode) (s : State G P W) → to_do (run_pool env mode m s).1 ≤ to_do s
    unfolding run_pool
    run_pool-keeps stalling s = finite.stall_keeps s
    run_pool-keeps preemptive s = elim (Bool-cases (env.try_run_one s).0) [
      | inl e ↦ omega (arith, finite.run_spends s e)
      | inr e ↦ finite.run_keeps s e
    ]

    run_pool-spends :
        (m : Mode) (s : State G P W)
        → (run_pool env mode m s).0 ≡ true
        → to_do (run_pool env mode m s).1 < to_do s
    unfolding run_pool
    run_pool-spends stalling s h = absurd (cc h)
    run_pool-spends preemptive s h = finite.run_spends s h

    guest_keeps : (s : State G P W) → to_do (guest_ran env mode s).1 ≤ to_do s
    guest_keeps s = run_pool-keeps mode (record s { borrowed = true })

    guest_spends :
        (s : State G P W)
        → (guest_ran env mode s).0 ≡ true
        → to_do (guest_ran env mode s).1 < to_do s
    guest_spends s h = run_pool-spends mode (record s { borrowed = true }) h

    wake_all-keeps : (ws : List W) (s : State G P W) → to_do (wake_all env mode ws s) ≤ to_do s
    unfolding wake_all
    wake_all-keeps [] s = omega arith
    wake_all-keeps (w ∷ ws) s =
        omega (arith, wake_all-keeps ws (env.wake w s), finite.wake_keeps w s)

    settle-keeps :
        (s : State G P W) (d : Dispatched P W)
        → to_do (settle env mode s d).1 ≤ to_do (record s { queue = d.queue })
    unfolding settle
    settle-keeps s d = wake_all-keeps d.woken (record s { queue = d.queue })

    waited-keeps :
        (wait : HostWait) (s : State G P W)
        → to_do
            (elim wait as (λ (x : HostWait). Bool × State G P W) [
              | sweeping ↦ settle env mode s (sweep_ready (env.is_ready s) s.queue)
              | blocking ↦ settle env mode s (dispatch_ready (env.poll_host s) s.queue)
            ]).1
          ≤ to_do s
    waited-keeps sweeping s =
        let d = sweep_ready (env.is_ready s) s.queue in
        omega (arith, settle-keeps s d, sweep_ready-fewer (env.is_ready s) s.queue)
    waited-keeps blocking s =
        let d = dispatch_ready (env.poll_host s) s.queue in
        omega (arith, settle-keeps s d, dispatch_ready-fewer (env.poll_host s) s.queue)

    poll_host-keeps : (b : Bool) (s : State G P W) → to_do (poll_host env mode b s).1 ≤ to_do s
    unfolding poll_host
    poll_host-keeps b s = waited-keeps (host_wait mode b) s

    poll_host-spends :
        (s : State G P W)
        → (poll_host env mode false s).0 ≡ true
        → to_do (poll_host env mode false s).1 < to_do s
    poll_host-spends s h =
        let d = dispatch_ready (env.poll_host s) s.queue in
        let same = poll_host_idle env mode s in
        let made =
          sym (settle_progress env mode s d)
          ∙ ap (λ (r : Bool × State G P W). r.0) (sym same)
          ∙ h in
        subst (λ (r : Bool × State G P W). to_do r.1 < to_do s) (sym same)
          (omega (
            arith,
            settle-keeps s d,
            dispatch_ready-fewer_strict (env.poll_host s) s.queue (finite.poll_answers s) made,
          ))

    -- Where a part goes on, less is to do than in the state `first`.
    Spends : {A : Type 0} → State G P W → Flow A T (State G P W) → Type 0
    Spends first (leave r s) = Unit
    Spends first (go_on a s) = to_do s < to_do first

    then_do-Spends :
        (first s : State G P W) (m : Flow (Unit {0}) T (State G P W))
        (f : Unit {0} → State G P W → Flow (Unit {0}) T (State G P W))
        → ((s' : State G P W) → m ≡ go_on tt s' → s ≡ s')
        → Spends first (f tt s)
        → Spends first (then_do m f)
    unfolding Spends
    then_do-Spends first s (leave r s') f same h = tt
    then_do-Spends first s (go_on _ s') f same h =
        subst (λ x. Spends first (f tt x)) (same s' refl) h

    finish-Spends :
        (s : State G P W) (b : Bool) (host : Bool × State G P W)
        → (guest_ran env mode s).0 ≡ b
        → poll_host env mode b (guest_ran env mode s).1 ≡ host
        → Spends s (finish_round env mode b host.0 host.1)
    unfolding finish_round Spends
    finish-Spends s true (h, s') e k =
        let kept = poll_host-keeps true (guest_ran env mode s).1 in
        let same = ap (λ (r : Bool × State G P W). to_do r.1) k in
        omega (arith, guest_spends s e, kept, same)
    finish-Spends s false (false, s') e k = tt
    finish-Spends s false (true, s') e k =
        let spent =
          poll_host-spends (guest_ran env mode s).1 (ap (λ (r : Bool × State G P W). r.0) k) in
        let same = ap (λ (r : Bool × State G P W). to_do r.1) k in
        omega (arith, guest_keeps s, spent, same)

    run_guest-Spends :
        (s : State G P W) (f : Bool → State G P W → Flow (Unit {0}) T (State G P W)) (b : Bool)
        → Spends s (f (guest_ran env mode s).0 (guest_ran env mode s).1)
        → Spends s (
            then_do
              (if b
                then leave (err reentrant_poll) s
                else go_on (guest_ran env mode s).0 (guest_ran env mode s).1)
              f)
    unfolding Spends
    run_guest-Spends s f true h = tt
    run_guest-Spends s f false h = h

    drive_round-Spends : (s : State G P W) → Spends s (drive_round env mode s)
    unfolding drive_round run_guest
    drive_round-Spends s =
        let ran = (guest_ran env mode s).1 in
        let polled = (host_polled env mode s).1 in
        then_do-Spends s s _ _ (consume-go_on env mode s) (
          then_do-Spends s s _ _ (λ s' e. (receive-go_on env mode s s' e).1)
            (run_guest-Spends s _ s.borrowed (
              then_do-Spends s ran _ _ (consume-go_on env mode ran) (
                then_do-Spends s ran _ _ (λ s' e. (receive-go_on env mode ran s' e).1)
                  (then_do-Spends s polled _ _ (λ s' e. (receive-go_on env mode polled s' e).1)
                    (finish-Spends s (guest_ran env mode s).0 (host_polled env mode s) refl
                      refl))))))

    after_round-returns :
        (s : State G P W) (m : Flow (Unit {0}) T (State G P W))
        (rest : State G P W → Option (Result T ExecutorError × State G P W))
        → Spends s m
        → ((s₁ : State G P W)
            → to_do s₁ < to_do s
            → (r : Result T ExecutorError) × (s' : State G P W) × (rest s₁ ≡ some (r, s')))
        → (r : Result T ExecutorError) × (s' : State G P W) × (after_round env mode m rest
            ≡ some (r, s'))
    unfolding after_round Spends
    after_round-returns s (leave r s') rest h next = (r, s', refl)
    after_round-returns s (go_on _ s₁) rest h next = next s₁ h

    drive_returns :
        (fuel : ℕ) (s : State G P W)
        → to_do s < fuel
        → (r : Result T ExecutorError) × (s' : State G P W) × (drive_until_output env mode fuel s
            ≡ some (r, s'))
    unfolding drive_until_output
    drive_returns zero s h = absurd (omega arith)
    drive_returns (suc fuel) s h =
        after_round-returns s (drive_round env mode s) _ (drive_round-Spends s)
          (λ s₁ less. drive_returns fuel s₁ (omega arith))

    -- Driving a root future returns. Where the tasks come to an end and the host keeps the contract of
    -- its poll, the loop ends within as many rounds as there is work and there are waiting pollables,
    -- and one more: each round that goes on has run a task or served a pollable. Its result is one of
    -- those that `drive_until_output-IsEnded` names.
    pub drive_until_output-total :
        (fuel : ℕ) (s : State G P W)
        → to_do s < fuel
        → (r : Result T ExecutorError) × (s' : State G P W) × (drive_until_output env mode fuel s
            ≡ some (r, s'))
          × IsEnded env mode s r s'
    drive_until_output-total fuel s h =
        let (r, s', e) = drive_returns fuel s h in
        (r, s', e, drive_until_output-IsEnded env mode fuel s s' r e)
