-- ===== src/Executor/Drive/Outcomes.antt =====
-- How `drive_until_output` ends: its last round, and what holds of the final state for each result.
use mathlib.Core.Path.{subst₂}
use leptos_wasi.Prelude.{
  ℕ, zero, suc, Bool, true, false, if◌then◌else◌, List, [], ◌∷◌, Option, some, Result, ok, err, ◌≡◌,
  refl, ap, subst, sym, ◌∙◌, arith, is_empty, Bool-cases, ◌⊎◌, inl, inr,
}
use leptos_wasi.Executor.{
  ExecutorError, task_spawn_failed, run_until_canceled, reentrant_poll, stalled,
}
use leptos_wasi.Executor.WaitQueue.{WaitQueue, TableEntry, take_pending}
use leptos_wasi.Executor.Dispatch.{Dispatched, dispatch_ready, abandon_leftover_pollables}
use leptos_wasi.Executor.Drive.{
  Mode, preemptive, stalling, blocking, host_wait, State, Received, canceled, empty, value, Env,
  Flow, leave, go_on, then_do, wake_all, consume_spawn_failed, abandon, receive, on_received,
  run_pool, run_guest, settle, poll_host, finish_round, drive_round, after_round,
  drive_until_output,
}

host_wait_idle : (mode : Mode) → host_wait mode false ≡ blocking
unfolding host_wait
host_wait_idle preemptive = refl
host_wait_idle stalling = refl

module _ {G P W T : Type 0} (env : Env G P W T) (mode : Mode) where
  -- Whether the guest made progress in a round that begins in this state, and the state behind it.
  abbrev pub guest_ran : State G P W → Bool × State G P W
  guest_ran s =
      let ran = run_pool env mode mode (record s { borrowed = true }) in
      (ran.0, record (ran.1) { borrowed = false })

  -- The same of the host, behind the guest.
  abbrev pub host_polled : State G P W → Bool × State G P W
  host_polled s = poll_host env mode (guest_ran s).0 (guest_ran s).1

  -- A state in which a round looks at the channel: its first, that behind the guest, or that behind
  -- the host.
  abbrev pub Within : State G P W → State G P W → Type 0
  Within first s = (s ≡ first) ⊎ ((s ≡ (guest_ran first).1) ⊎ (s ≡ (host_polled first).1))

  -- An output is the one that the channel held, and the pollables that were left are abandoned: the
  -- queue is empty before their wakers are woken.
  pub record IsDelivered (first s' : State G P W) (t : T) : Type 0 where
    pub state : State G P W
    pub within : Within first state
    pub held : env.try_recv state ≡ value t
    pub left : s' ≡ abandon env mode state
    pub dropped : (abandon_leftover_pollables (env.is_ready state) state.queue).1.entries ≡ []

  -- Neither side made progress: the guest ran without progress, no pollable was pending behind it, and
  -- the host was not asked; but for the drained queue that is the final state, in which the channel is
  -- empty.
  pub record IsStalled (first s' : State G P W) : Type 0 where
    pub idle : (guest_ran first).0 ≡ false
    pub nothing_pending : (take_pending (guest_ran first).1.queue).0 ≡ []
    pub left :
        s' ≡ record ((guest_ran first).1) { queue = (take_pending (guest_ran first).1.queue).1 }
    pub received : env.try_recv s' ≡ empty

  -- A spawn was refused before the round or by the guest in it; the flag is cleared.
  pub record IsRefused (first s' : State G P W) : Type 0 where
    pub state : State G P W
    pub within : (state ≡ first) ⊎ (state ≡ (guest_ran first).1)
    pub marked : state.spawn_failed ≡ true
    pub left : s' ≡ record state { spawn_failed = false }

  -- What each result says of the state in which the last round begins, and of the final state; no
  -- other error is possible.
  abbrev pub Ends : State G P W → Result T ExecutorError → State G P W → Type 0
  Ends first (ok t) s' = IsDelivered first s' t
  Ends first (err stalled) s' = IsStalled first s'
  Ends first (err run_until_canceled) s' = Within first s' × (env.try_recv s' ≡ canceled)
  Ends first (err task_spawn_failed) s' = IsRefused first s'
  Ends first (err reentrant_poll) s' = (s' ≡ first) × (s'.borrowed ≡ true)
  Ends first (err _) s' = ⊥

  abbrev FlowEnds : {A : Type 0} → State G P W → Flow A T (State G P W) → Type 0
  FlowEnds first (leave r s) = Ends first r s
  FlowEnds first (go_on a s) = Unit

  -- A part that goes on only in the state in which it began.
  then_do-FlowEnds :
      {B : Type 0} (first s : State G P W) (m : Flow (Unit {0}) T (State G P W))
      (f : Unit {0} → State G P W → Flow B T (State G P W))
      → FlowEnds first m
      → ((s' : State G P W) → m ≡ go_on tt s' → s ≡ s')
      → (m ≡ go_on tt s → FlowEnds first (f tt s))
      → FlowEnds first (then_do m f)
  then_do-FlowEnds first s (leave r s') f h same k = h
  then_do-FlowEnds first s (go_on _ s') f h same k =
      let e = same s' refl in subst (λ x. FlowEnds first (f tt x)) e (k (ap (go_on tt) (sym e)))

  pub consume-go_on : (s s' : State G P W) → consume_spawn_failed env mode s ≡ go_on tt s' → s ≡ s'
  unfolding consume_spawn_failed
  consume-go_on s s' h = ground arith

  consume-FlowEnds :
      (first s : State G P W)
      → (s ≡ first) ⊎ (s ≡ (guest_ran first).1)
      → FlowEnds first (consume_spawn_failed env mode s)
  unfolding consume_spawn_failed
  consume-FlowEnds first s w = elim (Bool-cases s.spawn_failed) [
    | inl e ↦ rw e record { state = s; within = w; marked = e; left = refl }
    | inr e ↦ rw e tt
  ]

  on_received-FlowEnds :
      (first : State G P W) (r : Received T) (s : State G P W)
      → Within first s
      → env.try_recv s ≡ r
      → FlowEnds first (on_received env mode r s)
  unfolding on_received
  on_received-FlowEnds first canceled s w e = (w, e)
  on_received-FlowEnds first empty s w e = tt
  on_received-FlowEnds first (value t) s w e = record {
    state = s;
    within = w;
    held = e;
    left = refl;
    dropped = unfold abandon_leftover_pollables in (unfold take_pending in refl);
  }

  receive-FlowEnds : (first s : State G P W) → Within first s → FlowEnds first (receive env mode s)
  unfolding receive
  receive-FlowEnds first s w = on_received-FlowEnds first (env.try_recv s) s w refl

  -- When the loop goes on behind a `try_recv`, nothing was received and nothing changed.
  pub receive-go_on :
      (s s' : State G P W) → receive env mode s ≡ go_on tt s' → (env.try_recv s ≡ empty) × (s ≡ s')
  unfolding receive on_received
  receive-go_on s s' h = ground arith

  -- `dispatch_ready` makes no progress only where nothing is pending.
  dispatch_idle :
      (poll_pollables : List P → List ℕ) (q : WaitQueue P W)
      → (dispatch_ready poll_pollables q).progress ≡ false
      → ((take_pending q).0 ≡ [])
        × (dispatch_ready poll_pollables q
            ≡ record { progress = false; woken = []; queue = (take_pending q).1 })
  unfolding dispatch_ready
  dispatch_idle poll_pollables q h = elim (Bool-cases (is_empty (take_pending q).0)) [
    | inl e ↦ (is_empty-nil (take_pending q).0 e, rw e refl)
    | inr e ↦ absurd (ground arith)
  ]
    where
      is_empty-nil : (es : List (TableEntry P)) → is_empty es ≡ true → es ≡ []
      is_empty-nil [] e = refl
      is_empty-nil (x ∷ es) e = absurd (cc e)

  pub poll_host_idle :
      (s : State G P W)
      → poll_host env mode false s ≡ settle env mode s (dispatch_ready (env.poll_host s) s.queue)
  unfolding poll_host
  poll_host_idle s = rw (host_wait_idle mode, poll_host) refl

  settle_nothing :
      (s : State G P W) (d : Dispatched P W) (q : WaitQueue P W)
      → d ≡ record { progress = false; woken = []; queue = q }
      → (settle env mode s d).1 ≡ record s { queue = q }
  unfolding settle wake_all
  settle_nothing s d q e = rw e refl

  pub settle_progress :
      (s : State G P W) (d : Dispatched P W) → (settle env mode s d).0 ≡ d.progress
  unfolding settle
  settle_progress s d = refl

  idle_host :
      (s : State G P W)
      → (poll_host env mode false s).0 ≡ false
      → ((take_pending s.queue).0 ≡ [])
        × ((poll_host env mode false s).1 ≡ record s { queue = (take_pending s.queue).1 })
  idle_host s h =
      let d = dispatch_ready (env.poll_host s) s.queue in
      let same = poll_host_idle s in
      let still = sym (settle_progress s d) ∙ ap (λ (r : Bool × State G P W). r.0) (sym same) ∙ h in
      let (nothing, drained) = dispatch_idle (env.poll_host s) s.queue still in
      (nothing, ap (λ (r : Bool × State G P W). r.1) same ∙ settle_nothing s d _ drained)

  finish-FlowEnds :
      (first : State G P W) (b : Bool) (host : Bool × State G P W)
      → (guest_ran first).0 ≡ b
      → poll_host env mode b (guest_ran first).1 ≡ host
      → env.try_recv host.1 ≡ empty
      → FlowEnds first (finish_round env mode b host.0 host.1)
  unfolding finish_round
  finish-FlowEnds first true host e k h = tt
  finish-FlowEnds first false (true, s) e k h = tt
  finish-FlowEnds first false (false, s) e k h =
      let (nothing, left) =
        idle_host (guest_ran first).1 (ap (λ (r : Bool × State G P W). r.0) k) in
      record {
        idle = e;
        nothing_pending = nothing;
        left = sym (ap (λ (r : Bool × State G P W). r.1) k) ∙ left;
        received = h;
      }

  run_guest-FlowEnds :
      {B : Type 0} (s : State G P W) (f : Bool → State G P W → Flow B T (State G P W)) (b : Bool)
      → s.borrowed ≡ b
      → FlowEnds s (f (guest_ran s).0 (guest_ran s).1)
      → FlowEnds s (
          then_do
            (if b then leave (err reentrant_poll) s else go_on (guest_ran s).0 (guest_ran s).1)
            f)
  run_guest-FlowEnds s f true e k = (refl, e)
  run_guest-FlowEnds s f false e k = k

  -- Behind the guest.
  behind-FlowEnds :
      (s : State G P W)
      → FlowEnds s (
          then_do (consume_spawn_failed env mode (guest_ran s).1) λ _ s₄.
            then_do (receive env mode s₄) λ _ s₅.
              let host = poll_host env mode (guest_ran s).0 s₅ in
              then_do
                (receive env mode host.1)
                λ _ s₆. finish_round env mode (guest_ran s).0 host.0 s₆)
  behind-FlowEnds s =
      let ran = (guest_ran s).1 in
      let polled = (host_polled s).1 in
      then_do-FlowEnds s ran _ _ (consume-FlowEnds s ran (inr refl)) (consume-go_on ran) λ _.
        then_do-FlowEnds s ran _ _ (receive-FlowEnds s ran (inr (inl refl)))
          (λ s' e. (receive-go_on ran s' e).1)
          λ _.
            then_do-FlowEnds s polled _ _ (receive-FlowEnds s polled (inr (inr refl)))
              (λ s' e. (receive-go_on polled s' e).1)
              λ k.
                finish-FlowEnds s (guest_ran s).0 (host_polled s) refl refl
                  (receive-go_on polled polled k).0

  drive_round-FlowEnds : (s : State G P W) → FlowEnds s (drive_round env mode s)
  unfolding drive_round run_guest
  drive_round-FlowEnds s =
      then_do-FlowEnds s s _ _ (consume-FlowEnds s s (inl refl)) (consume-go_on s) λ _.
        then_do-FlowEnds s s _ _ (receive-FlowEnds s s (inl refl))
          (λ s' e. (receive-go_on s s' e).1)
          λ _. run_guest-FlowEnds s _ s.borrowed refl (behind-FlowEnds s)

  -- The states in which the rounds begin.
  pub data Reaches : State G P W → State G P W → Type 0 where
    at_once : (s : State G P W) → Reaches s s
    later :
        (s s₁ s₂ : State G P W)
        → drive_round env mode s ≡ go_on tt s₁
        → Reaches s₁ s₂
        → Reaches s s₂

  -- The last round, from a state that the rounds before it reach.
  pub record IsEnded (s : State G P W) (r : Result T ExecutorError) (s' : State G P W)
      : Type 0 where
    pub first : State G P W
    pub reached : Reaches s first
    pub ended : Ends first r s'

  after_round-IsEnded :
      (s : State G P W) (m : Flow (Unit {0}) T (State G P W))
      (rest : State G P W → Option (Result T ExecutorError × State G P W)) (s' : State G P W)
      (r : Result T ExecutorError)
      → drive_round env mode s ≡ m
      → FlowEnds s m
      → ((s₁ : State G P W) → rest s₁ ≡ some (r, s') → IsEnded s₁ r s')
      → after_round env mode m rest ≡ some (r, s')
      → IsEnded s r s'
  unfolding after_round
  after_round-IsEnded s (leave r₁ s₁) rest s' r e ends next h =
      let same_r : r₁ ≡ r = cc in
      let same_s : s₁ ≡ s' = cc in
      record { first = s; reached = at_once s; ended = subst₂ (Ends s) same_r same_s ends }
  after_round-IsEnded s (go_on _ s₁) rest s' r e ends next h =
      let ended = next s₁ h in
      record { first = ended.first; reached = later s s₁ _ e ended.reached; ended = ended.ended }

  -- How driving a root future ends, in whatever mode and on whatever guest, wakers and host, by its
  -- last round, which begins in a state that rounds before it reach. An output is the one that the
  -- channel held, at the beginning of the round, behind the guest or behind the host, and the pollables
  -- that were left are abandoned. `Stalled`: the guest ran without progress, and no pollable was
  -- pending for the host to wait for; nothing has changed since but that the queue is drained, and the
  -- channel is empty. `RunUntilCanceled`: the channel is closed. `TaskSpawnFailed`: a spawn was refused
  -- before the round or in it, and its mark is cleared. `ReentrantPoll`: the pool was borrowed, and
  -- nothing is changed. No other error comes.
  pub drive_until_output-IsEnded :
      (fuel : ℕ) (s s' : State G P W) (r : Result T ExecutorError)
      → drive_until_output env mode fuel s ≡ some (r, s')
      → IsEnded s r s'
  unfolding drive_until_output
  drive_until_output-IsEnded zero s s' r h = absurd (cc h)
  drive_until_output-IsEnded (suc fuel) s s' r h =
      after_round-IsEnded s (drive_round env mode s) _ s' r refl (drive_round-FlowEnds s)
        (λ s₁ e. drive_until_output-IsEnded fuel s₁ s' r e) h
