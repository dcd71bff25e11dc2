-- ===== src/Handler/Routes/Discovery/Tests.antt =====
-- Printed patterns.
use leptos_wasi.Prelude.{◌≡◌, refl, [], ◌∷◌}
use leptos_wasi.Std.Str.{Bytes, strip_prefix}
use leptos_wasi.Std.Codes.{codes}
use leptos_wasi.Handler.Routes.Discovery.{
  PathSegment, unit_segment, static_segment, param_segment, optional_param, splat, print_segment,
  needs_slash, push_segments, to_rf_str_representation, path_or_root, into_route_listing,
}

abbrev raw : PathSegment → Bytes
raw unit_segment = []
raw (static_segment value) = value
raw (param_segment value) = value
raw (optional_param value) = value
raw (splat value) = value

run : Unit {0}
unfolding to_rf_str_representation push_segments needs_slash print_segment path_or_root
    into_route_listing strip_prefix
run = tt

prints :
    to_rf_str_representation raw
      (static_segment (codes "p") ∷ param_segment (codes "id") ∷ splat (codes "rest") ∷ [])
    ≡ codes "/p/:id/*"
unfolding run
prints = refl

root :
    into_route_listing raw (λ path. path) (λ path. path ∷ []) (unit_segment ∷ [])
    ≡ (codes "/", unit_segment ∷ []) ∷ []
unfolding run
root = refl
