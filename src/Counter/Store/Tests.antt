-- ===== src/Counter/Store/Tests.antt =====
-- An increment whose first attempt fails at the commit, and whose second attempt is not heard of.
use leptos_wasi.Prelude.{◌≡◌, refl, arith, false, [], ◌∷◌, none, ok, err, ◌==◌}
use leptos_wasi.Std.Str.{Bytes, bytes_eq}
use leptos_wasi.Std.Codes.{codes}
use leptos_wasi.Counter.Store.{
  invalid_request, unavailable, is_identifier_byte, validate_identifier, Database, set_counter,
  set_operation, call, insert_counter, reserve, bump, recall, value_of_operation, transaction,
  conclude, increment_counter, read_counter,
}
use leptos_wasi.Counter.Store.Once.{incremented, attempts, increment_counter_once}

abbrev empty : Database
empty = record { counters = λ x. none; operations = λ x y. none }

abbrev demo : Bytes
demo = codes "demo"

abbrev first : Bytes
first = codes "op-1"

run : Unit {0}
unfolding increment_counter conclude transaction value_of_operation recall bump reserve
    insert_counter call set_operation set_counter validate_identifier is_identifier_byte
    read_counter attempts bytes_eq
run = tt

counts :
    (increment_counter
      (λ n. false)
      demo
      (codes "op-2")
      (increment_counter (λ n. false) demo first empty).1).0
    ≡ ok 2
unfolding run
counts = refl

rolls_back : (increment_counter (λ n. n == 5) demo first empty).0 ≡ err unavailable
unfolding run
rolls_back = refl

refuses : (increment_counter (λ n. false) (codes "../demo") first empty).0 ≡ err invalid_request
unfolding run
refuses = refl

valid : validate_identifier demo ≡ ok tt
unfolding run
valid = refl

valid_first : validate_identifier first ≡ ok tt
unfolding run
valid_first = refl

increment_counter_once_example :
    (increment_counter
        (λ n. false)
        demo
        first
        (attempts demo first ((λ n. n == 5) ∷ (λ n. false) ∷ []) empty)
      ≡ (ok 1, incremented demo first empty))
    × (read_counter false demo (incremented demo first empty) ≡ ok 1)
increment_counter_once_example =
    increment_counter_once demo first valid valid_first empty refl (omega arith)
      ((λ n. n == 5) ∷ (λ n. false) ∷ [])
