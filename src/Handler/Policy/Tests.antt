-- ===== src/Handler/Policy/Tests.antt =====
-- Content-Length headers at concrete values; every byte string is text here.
use leptos_wasi.Prelude.{List, [], ◌∷◌, some, ok, err, ◌≡◌, refl, arith, ◌↔◌, ◌≤◌, All}
use leptos_wasi.Std.Str.{Bytes, split, trim_start, trim_end, decimal_from, parse_u64}
use leptos_wasi.Std.Codes.{codes}
use leptos_wasi.Handler.Policy.{
  body_too_large, conflicting_content_length, invalid_content_length, validate_content_length,
  read_values, read_parts, read_length, check_limit,
}
use leptos_wasi.Handler.Policy.Accepted.{Declares, validate_content_length_iff}

abbrev values_12 : List Bytes
values_12 = codes "12, 12" ∷ codes "12" ∷ []

run : Unit {0}
unfolding validate_content_length read_values read_parts read_length check_limit split trim_start
    trim_end decimal_from parse_u64
run = tt

agreeing : validate_content_length some 100 values_12 50 ≡ ok (some 12)
unfolding run
agreeing = refl

too_large : validate_content_length some 100 (codes "1025" ∷ []) 50 ≡ err (body_too_large 50)
unfolding run
too_large = refl

conflicting :
    validate_content_length some 100 (codes "1,2" ∷ []) 50 ≡ err conflicting_content_length
unfolding run
conflicting = refl

overflowing :
    validate_content_length some 100 (codes "18446744073709551616" ∷ []) 50
    ≡ err invalid_content_length
unfolding run
overflowing = refl

signed : validate_content_length some 100 (codes "+1" ∷ []) 50 ≡ err invalid_content_length
unfolding run
signed = refl

validate_content_length_iff_example :
    (validate_content_length some 100 values_12 50 ≡ ok (some 12))
    ↔ (All (Declares some 12) values_12 × (12 ≤ 50))
validate_content_length_iff_example =
    validate_content_length_iff some 100 50 12 (codes "12, 12") (codes "12" ∷ []) (omega arith)
