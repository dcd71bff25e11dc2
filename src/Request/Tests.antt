-- ===== src/Request/Tests.antt =====
-- Bodies from a stream that is a list of answers; the state of the host is what is still to come.
use leptos_wasi.Prelude.{◌≡◌, refl, true, false, List, [], ◌∷◌, none, some, Result, ok, err, arith}
use leptos_wasi.Std.Codes.{codes}
use leptos_wasi.Request.{
  RequestError, body_too_large, get, post, is_get_or_head, Read, closed, received, Host,
  note_empty_body_read, declared_length_matches, on_read, on_empty, on_timed_read, timed_round,
  round, after_round, collect_loop, finish_body, finish_collected, open_and_collect,
  collect_wasi_body,
}
use leptos_wasi.Request.Bounded.{IsBounded, collect_wasi_body-IsBounded}
use leptos_wasi.Request.Ends.{collect_wasi_body-ends}
use leptos_wasi.Request.Stream.{concat, Serves, expected, collect_wasi_body-expected}
use leptos_wasi.Std.Str.{Bytes}

abbrev answer : List Read → Read × List Read
answer [] = (closed, [])
answer (r ∷ rs) = (r, rs)

abbrev scripted : Host (List Read)
scripted = record {
  consume = λ s. (true, s);
  stream = λ s. (true, s);
  finish = λ s. [];
  deadline_ready = λ s. (false, s);
  read = answer;
  blocking_read = answer;
  poll_deadline = λ s. (false, s);
}

abbrev two_chunks : List Bytes
two_chunks = codes "leptos" ∷ codes "-wasi" ∷ []

abbrev two_reads : List Read
two_reads = received (codes "leptos") ∷ received (codes "-wasi") ∷ []

run : Unit {0}
unfolding collect_wasi_body open_and_collect is_get_or_head finish_collected finish_body
    declared_length_matches collect_loop after_round round timed_round on_timed_read on_empty
    on_read note_empty_body_read Serves expected
run = tt

reads_all :
    collect_wasi_body scripted 1000 100 3 (ok (some 11)) post none two_reads
    ≡ some (ok (codes "leptos-wasi"), [])
unfolding run
reads_all = refl

too_long :
    collect_wasi_body scripted 1000 10 3 (ok none) post none two_reads
    ≡ some (err (body_too_large 10), [])
unfolding run
too_long = refl

skips_get :
    collect_wasi_body scripted 1000 10 0 (ok (some 3)) get none two_reads ≡ some (ok [], two_reads)
unfolding run
skips_get = refl

serves : Serves scripted two_chunks two_reads
unfolding run
serves = (_, refl, (_, refl, (_, refl)))

not_get : is_get_or_head post ≡ false
unfolding run
not_get = refl

collect_wasi_body-expected_example :
    (s' : List Read) × (collect_wasi_body scripted 1000 100 3 (ok (some 11)) post none two_reads
      ≡ some (expected 100 (some 11) (concat two_chunks), s'))
collect_wasi_body-expected_example =
    collect_wasi_body-expected scripted 1000 100 3 two_chunks (some 11) post two_reads (omega arith)
      (omega arith) not_get refl refl serves

collect_wasi_body-IsBounded_example : IsBounded 100 (some 11) post (ok (codes "leptos-wasi"))
collect_wasi_body-IsBounded_example =
    collect_wasi_body-IsBounded scripted 1000 100 3 (some 11) none post two_reads []
      (ok (codes "leptos-wasi")) (omega arith) reads_all

collect_wasi_body-ends_example :
    (x : Result Bytes RequestError × List Read) × (collect_wasi_body scripted 1000 100 6464
        (ok (some 11))
        post
        (some 30)
        two_reads
      ≡ some x)
    × IsBounded 100 (some 11) post x.0
collect_wasi_body-ends_example =
    collect_wasi_body-ends scripted 1000 100 6464 30 (some 11) post two_reads (omega arith)
      (omega arith)
