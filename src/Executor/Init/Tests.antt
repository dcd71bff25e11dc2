-- ===== src/Executor/Init/Tests.antt =====
-- Initialisation at concrete callbacks: the first call creates executor 0 and installs it.
use leptos_wasi.Prelude.{true, false, none, ok, ◌≡◌, ◌≢◌, refl}
use leptos_wasi.Executor.Drive.{preemptive, stalling}
use leptos_wasi.Executor.Init.{
  Thread, new, new_in, Create, Install, initialize_preview2_with, install_created, set_and_result,
  installed_state, result,
}
use leptos_wasi.Executor.Init.Sticky.{initialize_preview2_with-sticky, new_again}

abbrev create_first : Create
create_first mode cell = (ok (record { handle = 0; mode = mode }), cell)

abbrev refuse : Install
refuse executor cell = (false, cell)

abbrev accept : Install
accept executor cell = (true, cell)

abbrev free_thread : Thread
free_thread = record { borrowed = false; slot = none; fresh = 4 }

run_init : Unit {0}
unfolding initialize_preview2_with install_created set_and_result installed_state result new new_in
run_init = tt

installs : (initialize_preview2_with create_first accept preemptive none).1 ≢ none
unfolding run_init
installs e = cc

makes : (new stalling free_thread).0 ≡ ok (record { handle = 4; mode = stalling })
unfolding run_init
makes = refl

initialize_preview2_with-sticky_example :
    initialize_preview2_with create_first refuse preemptive
      (initialize_preview2_with create_first accept preemptive none).1
    ≡ initialize_preview2_with create_first accept preemptive none
initialize_preview2_with-sticky_example =
    initialize_preview2_with-sticky create_first create_first accept refuse preemptive none refl
      installs

new_again_example :
    new stalling (new stalling free_thread).1
    ≡ (ok (record { handle = 4; mode = stalling }), (new stalling free_thread).1)
new_again_example = new_again stalling free_thread (record { handle = 4; mode = stalling }) makes
