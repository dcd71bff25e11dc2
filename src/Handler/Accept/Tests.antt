-- ===== src/Handler/Accept/Tests.antt =====
-- Accept headers with a quality that is a digit.
use leptos_wasi.Prelude.{
  ℕ, ◌≡◌, refl, Bool, true, false, not, [], ◌∷◌, Option, none, some, ◌==◌, ◌-◌,
}
use leptos_wasi.Std.Str.{Bytes, bytes_eq, split, trim_start, trim_end, strip_prefix}
use leptos_wasi.Std.Codes.{codes}
use leptos_wasi.Http.{accept, values_of}
use leptos_wasi.Http.Listed.{listed}
use leptos_wasi.Handler.Accept.{
  accepts_html, texts_accept, media_ranges, range_accepts, fields_accept, find_quality,
  parse_quality,
}

abbrev digit : Bytes → Option ℕ
digit [] = none
digit (c ∷ cs) = some (c - b'0')

abbrev above_zero : ℕ → Bool
above_zero n = not (n == 0)

run : Unit {0}
unfolding accepts_html texts_accept media_ranges range_accepts fields_accept find_quality
    parse_quality values_of bytes_eq split trim_start trim_end strip_prefix
run = tt

zero_quality : accepts_html digit above_zero listed ((accept, codes "text/html;q=0") ∷ []) ≡ false
unfolding run
zero_quality = refl

browser :
    accepts_html digit above_zero listed
      ((accept, codes "*/*;q=1") ∷ (accept, codes "image/png, text/html ;level=1") ∷ [])
    ≡ true
unfolding run
browser = refl
