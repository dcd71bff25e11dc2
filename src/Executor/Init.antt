-- ===== src/Executor/Init.antt =====
-- src/executor/p2.rs: `Executor::new` and `initialize_preview2_with`; src/executor/p3.rs:
-- `initialize_with`. The cells live as long as the thread or the process, so each function takes the
-- cell and returns it; a callback may initialise recursively, so it takes and returns the cell too.
pub mod Sticky
mod Tests
use leptos_wasi.Prelude.{
  ℕ, suc, Bool, true, false, not, Option, none, some, Result, ok, err, if◌then◌else◌,
}
use leptos_wasi.Executor.{
  ExecutorError, preview2_mode_mismatch, preview2_initialization_reentrant,
  spawner_already_initialized,
}
use leptos_wasi.Executor.Drive.{Mode, preemptive, stalling}

-- A handle of `Rc<ExecutorInner>`: which executor it is, and its mode.
pub record Executor : Type 0 where
  pub handle : ℕ
  pub mode : Mode

abbrev pub mode_eq : Mode → Mode → Bool
mode_eq preemptive preemptive = true
mode_eq stalling stalling = true
mode_eq preemptive stalling = false
mode_eq stalling preemptive = false

-- `thread_local! PREVIEW2_EXECUTOR`: borrowed, or the slot. `fresh` is the next executor's handle.
pub record Thread : Type 0 where
  pub borrowed : Bool
  pub slot : Option Executor
  pub fresh : ℕ

-- `Executor::new` on a slot that is not borrowed.
new_in : Option Executor → Mode → Thread → Result Executor ExecutorError × Thread
new_in (some executor) mode t =
    if not (mode_eq executor.mode mode) then (err preview2_mode_mismatch, t) else (ok executor, t)
new_in none mode t =
    let made : Executor = record { handle = t.fresh; mode = mode } in
    (ok made, record { borrowed = t.borrowed; slot = some made; fresh = suc t.fresh })

unfoldable pub new : Mode → Thread → Result Executor ExecutorError × Thread
unfolding new_in
new mode t = if t.borrowed then (err preview2_initialization_reentrant, t) else new_in t.slot mode t

pub data Preview2InitState : Type 0 where
  initialized : Executor → Preview2InitState
  conflict : Preview2InitState

-- `Preview2InitState::result`.
unfoldable pub result : Preview2InitState → Mode → Result Executor ExecutorError
result (initialized executor) mode =
    if mode_eq executor.mode mode then ok executor else err preview2_mode_mismatch
result conflict mode = err spawner_already_initialized

-- `OnceCell`.
abbrev pub Cell : Type 0 → Type 0
Cell A = Option A

abbrev pub Install : Type 0
Install = Executor → Cell Preview2InitState → Bool × Cell Preview2InitState

abbrev pub Create : Type 0
Create = Mode → Cell Preview2InitState → Result Executor ExecutorError × Cell Preview2InitState

-- `match install(executor.clone())`; `true` is `Ok(())`.
unfoldable pub installed_state : Bool → Executor → Preview2InitState
installed_state true executor = initialized executor
installed_state false executor = conflict

-- `state.set(initialized)`, refused when a callback has set the cell, and the result either way.
unfoldable pub set_and_result :
    Preview2InitState
    → Mode
    → Cell Preview2InitState
    → Result Executor ExecutorError × Cell Preview2InitState
set_and_result fresh mode none = (result fresh mode, some fresh)
set_and_result fresh mode (some old) = (result old mode, some old)

-- Behind `create(mode)?`.
unfoldable pub install_created :
    Install
    → Mode
    → Result Executor ExecutorError × Cell Preview2InitState
    → Result Executor ExecutorError × Cell Preview2InitState
install_created install mode (err e, cell) = (err e, cell)
install_created install mode (ok executor, cell) =
    set_and_result (installed_state (install executor cell).0 executor) mode
      (install executor cell).1

unfoldable pub initialize_preview2_with :
    Create
    → Install
    → Mode
    → Cell Preview2InitState
    → Result Executor ExecutorError × Cell Preview2InitState
initialize_preview2_with create install mode (some state) = (result state mode, some state)
initialize_preview2_with create install mode none = install_created install mode (create mode none)

pub data InitState : Type 0 where
  initialized3 conflict3 : InitState

unfoldable pub result3 : InitState → Result (Unit {0}) ExecutorError
result3 initialized3 = ok tt
result3 conflict3 = err spawner_already_initialized

-- `initialize_with`: the callback's `Ok` is `true`. It runs only on an empty cell; a `OnceLock`
-- does not allow it to initialise the same cell. The count says how often it ran.
unfoldable pub initialize_with :
    Bool → Cell InitState → ℕ → Result (Unit {0}) ExecutorError × Cell InitState × ℕ
initialize_with answer (some state) calls = (result3 state, some state, calls)
initialize_with true none calls = (ok tt, some initialized3, suc calls)
initialize_with false none calls = (err spawner_already_initialized, some conflict3, suc calls)
