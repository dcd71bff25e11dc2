-- ===== src/Handler/Trace/Tests.antt =====
-- A trace whose first byte is marked twice and which is finished twice.
use leptos_wasi.Prelude.{◌≡◌, [], ◌∷◌, ◌++◌, map, some, false, arith}
use leptos_wasi.Handler.Trace.{first_byte, done, reports}
use leptos_wasi.Handler.Trace.Once.{reports_once}

reports_once_example :
    reports
      (first_byte 250 ∷ (map first_byte (900 ∷ []) ++ done ∷ first_byte 1000 ∷ done ∷ []))
      (record { first_byte_micros = 0; finished = false })
    ≡ some 250 ∷ []
reports_once_example = reports_once 250 (900 ∷ []) (first_byte 1000 ∷ done ∷ []) (omega arith)
