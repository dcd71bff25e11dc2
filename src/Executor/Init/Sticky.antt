-- ===== src/Executor/Init/Sticky.antt =====
-- Initialisation is sticky: the first attempt decides, and later calls repeat its result.
use leptos_wasi.Prelude.{
  Bool, true, false, Option, none, some, Result, ok, err, ◌≡◌, ◌≢◌, refl, arith, Bool-cases, inl,
  inr, ℕ,
}
use leptos_wasi.Executor.{ExecutorError}
use leptos_wasi.Executor.Drive.{Mode, preemptive, stalling}
use leptos_wasi.Executor.Init.{
  Executor, Thread, mode_eq, new, new_in, Preview2InitState, Cell, Create, Install, set_and_result,
  install_created, initialize_preview2_with, initialize_with, result3,
}

set_and_result_again :
    (create : Create) (install : Install) (fresh : Preview2InitState) (mode : Mode)
    (cell : Cell Preview2InitState)
    → initialize_preview2_with create install mode (set_and_result fresh mode cell).1
      ≡ set_and_result fresh mode cell
unfolding initialize_preview2_with set_and_result
set_and_result_again create install fresh mode none = refl
set_and_result_again create install fresh mode (some old) = refl

install_created_again :
    (create : Create) (install install' : Install) (mode : Mode)
    (made : Result Executor ExecutorError × Cell Preview2InitState)
    → made.1 ≡ none
    → (install_created install mode made).1 ≢ none
    → initialize_preview2_with create install' mode (install_created install mode made).1
      ≡ install_created install mode made
unfolding install_created
install_created_again create install install' mode (err e, cell) h k = absurd (k h)
install_created_again create install install' mode (ok x, cell) h k =
    set_and_result_again create install' _ mode _

-- The first call that leaves the cell set decides. Whatever the callbacks of a later call would
-- answer, and also when installing initialised the cell recursively, a later call with the same
-- mode repeats the first result and leaves the cell as it is, provided that creating the executor
-- does not touch the cell.
pub initialize_preview2_with-sticky :
    (create create' : Create) (install install' : Install) (mode : Mode)
    (cell : Cell Preview2InitState)
    → (create mode none).1 ≡ none
    → (initialize_preview2_with create install mode cell).1 ≢ none
    → initialize_preview2_with create' install' mode
        (initialize_preview2_with create install mode cell).1
      ≡ initialize_preview2_with create install mode cell
initialize_preview2_with-sticky create create' install install' mode (some state) h k =
    unfold initialize_preview2_with in refl
initialize_preview2_with-sticky create create' install install' mode none h k =
    let first = first_call create install mode in
    rw first
      (install_created_again create' install install' mode (create mode none) h (rw first at k))
  where
    first_call :
        (c : Create) (i : Install) (m : Mode)
        → initialize_preview2_with c i m none ≡ install_created i m (c m none)
    first_call c i m = unfold initialize_preview2_with in refl

mode_eq_refl : (mode : Mode) → mode_eq mode mode ≡ true
mode_eq_refl preemptive = refl
mode_eq_refl stalling = refl

mode_eq-eq : (m m' : Mode) → mode_eq m m' ≡ true → m ≡ m'
mode_eq-eq preemptive preemptive h = refl
mode_eq-eq stalling stalling h = refl
mode_eq-eq preemptive stalling h = cc
mode_eq-eq stalling preemptive h = cc

new_in_again :
    (slot : Option Executor) (mode : Mode) (t : Thread) (e : Executor)
    → t.borrowed ≡ false
    → t.slot ≡ slot
    → (new_in slot mode t).0 ≡ ok e
    → new mode (new_in slot mode t).1 ≡ (ok e, (new_in slot mode t).1)
unfolding new new_in
new_in_again none mode t e k l h = ground (arith, mode_eq_refl mode)
new_in_again (some old) mode t e k l h = elim (Bool-cases (mode_eq old.mode mode)) [
  | inl m ↦ ground arith
  | inr m ↦ ground arith
]

-- On one thread, after a first successful `Executor::new` outside any borrow, every further call
-- with the same mode returns the same executor and creates none.
pub new_again :
    (mode : Mode) (t : Thread) (e : Executor)
    → (new mode t).0 ≡ ok e
    → new mode (new mode t).1 ≡ (ok e, (new mode t).1)
new_again mode t e h = elim (Bool-cases t.borrowed) [
  | inl k ↦ absurd (unfold new in ground arith)
  | inr k ↦
      let opened : new mode t ≡ new_in t.slot mode t = unfold new in rw k refl in
      rw opened (new_in_again t.slot mode t e k refl (rw opened at h))
]

-- The Preview 3 spawner is initialised once: the second call repeats the first result, whatever its
-- own callback would answer, and the callback has run no more than once.
pub initialize_with-sticky :
    (answer answer' : Bool) (calls : ℕ)
    → initialize_with answer'
        (initialize_with answer none calls).1
        (initialize_with answer none calls).2
      ≡ initialize_with answer none calls
unfolding initialize_with result3
initialize_with-sticky true answer' calls = refl
initialize_with-sticky false answer' calls = refl
