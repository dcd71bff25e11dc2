-- ===== src/Executor/Drive/Spawned.antt =====
-- A task that the pool refuses while an executor runs.
use leptos_wasi.Prelude.{ℕ, suc, ◌≡◌, Bool, false, some, err, arith}
use leptos_wasi.Executor.{task_spawn_failed}
use leptos_wasi.Executor.Drive.{
  Mode, State, Env, spawn, consume_spawn_failed, drive_round, after_round, drive_until_output,
}

module _ {G P W T : Type 0} (env : Env G P W T) (mode : Mode)
    (spawner : State G P W → Bool × State G P W) where
  -- A refused task is not lost: driving a root future then ends with the error in the next round,
  -- and the mark is taken back.
  drive_until_output-spawn :
      (fuel : ℕ) (s : State G P W)
      → (spawner s).0 ≡ false
      → drive_until_output env mode (suc fuel) (spawn spawner s)
        ≡ some (err task_spawn_failed, record ((spawner s).1) { spawn_failed = false })
  unfolding spawn drive_until_output drive_round consume_spawn_failed after_round
  drive_until_output-spawn fuel s h = ground arith
