-- ===== src/Executor/Current/Nested.antt =====
-- Executors that run within each other, as where a task of one drives another.
use leptos_wasi.Prelude.{◌≡◌, refl, List, [], ◌∷◌, ◌++◌, Option, some}
use leptos_wasi.Executor.Current.{Queues, pollable_queue, install, drop_guard}

-- What runs on a thread: a future looks for its queue, or an executor runs, under its guard, and then
-- the rest.
data Calls (Q : Type 0) : Type 0 where
  done : Calls Q
  look : Calls Q → Calls Q
  run_with : Q → Calls Q → Calls Q → Calls Q

module _ {Q : Type 0} where
  -- The queues that were found, in order, and the slots afterwards.
  found : Calls Q → Queues Q → List (Option Q) × Queues Q
  found done queues = ([], queues)
  found (look rest) queues = (pollable_queue queues ∷ (found rest queues).0, (found rest queues).1)
  found (run_with queue body rest) queues =
      let within = found body (install queue queues).1 in
      let behind = found rest (drop_guard (install queue queues).0 within.1) in
      (within.0 ++ behind.0, behind.1)

  -- The queues by the text of the calls, given the one outside of them.
  enclosing : Option Q → Calls Q → List (Option Q)
  enclosing outside done = []
  enclosing outside (look rest) = outside ∷ enclosing outside rest
  enclosing outside (run_with queue body rest) =
      enclosing (some queue) body ++ enclosing outside rest

  -- Each future finds the queue of the innermost executor that runs around it, and that of the
  -- process outside of all; the slots end as they were.
  found-enclosing :
      (calls : Calls Q) (queues : Queues Q)
      → found calls queues ≡ (enclosing (pollable_queue queues) calls, queues)
  unfolding found enclosing pollable_queue install drop_guard
  found-enclosing done queues = refl
  found-enclosing (look rest) queues = rw (found-enclosing rest queues) refl
  found-enclosing (run_with queue body rest) queues =
      rw (found-enclosing body (install queue queues).1, found-enclosing rest queues) refl
