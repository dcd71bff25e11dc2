-- ===== src/Handler/Routes/Tests.antt =====
-- Route tables whose listings are the Boolean that says whether the mode is static.
use leptos_wasi.Prelude.{◌≡◌, refl, Bool, false, [], ◌∷◌, none, some, ok, err}
use leptos_wasi.Std.Str.{bytes_eq}
use leptos_wasi.Std.Codes.{codes}
use leptos_wasi.Handler.Routes.{
  slash, exact, param, collision_segment, route_collision_key, segment_eq, key_eq, duplicate_route,
  Route, is_excluded, validate, validated_route_table,
}
use leptos_wasi.Handler.Routes.Distinct.{IsTable, validated_route_table-IsTable}

abbrev by_id : Route Bool
by_id = record {
  path = codes "/p/:id";
  spec = exact (codes "p") ∷ slash ∷ param (codes "id") ∷ [];
  listing = false;
}

abbrev by_name : Route Bool
by_name = record {
  path = codes "/p/:name";
  spec = exact (codes "p") ∷ slash ∷ param (codes "name") ∷ [];
  listing = false;
}

abbrev home : Route Bool
home = record { path = codes "/"; spec = []; listing = false }

run : Unit {0}
unfolding validated_route_table validate is_excluded key_eq segment_eq route_collision_key
    collision_segment bytes_eq
run = tt

collides :
    validated_route_table (λ b. b) (ok (by_id ∷ home ∷ by_name ∷ [])) none
    ≡ err (duplicate_route (codes "/p/:name"))
unfolding run
collides = refl

excludes :
    validated_route_table (λ b. b) (ok (by_id ∷ home ∷ by_name ∷ [])) (some (codes "/p/:id" ∷ []))
    ≡ ok (home ∷ by_name ∷ [])
unfolding run
excludes = refl

validated_route_table-IsTable_example :
    IsTable (λ b. b) (some (codes "/p/:id" ∷ [])) [] (home ∷ by_name ∷ [])
validated_route_table-IsTable_example =
    validated_route_table-IsTable (λ b. b) (ok (by_id ∷ home ∷ by_name ∷ []))
      (some (codes "/p/:id" ∷ [])) (home ∷ by_name ∷ []) excludes
