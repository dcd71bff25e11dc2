-- ===== src/Handler/Routes/Discovery.antt =====
-- src/handler/routes.rs: from the listings of the application's router to a route table. The rendering
-- that finds the listings, `expand_optionals` and `as_raw_str` are those of leptos_router, the parser of
-- patterns and the router those of routefinder: all are parameters.
mod Tests
use leptos_wasi.Prelude.{
  Bool, true, false, not, ◌&&◌, List, [], ◌∷◌, ◌++◌, Option, Result, ok, err, ◌>>=◌, if◌then◌else◌,
  map, is_empty,
}
use leptos_wasi.Std.Str.{Bytes, starts_with}
use leptos_wasi.Std.Codes.{codes}
use leptos_wasi.Handler.Routes.{
  Segment, RegistrationError, invalid_route, Route, validated_route_table,
}

-- `leptos_router::PathSegment`.
pub data PathSegment : Type 0 where
  unit_segment : PathSegment
  static_segment param_segment optional_param splat : Bytes → PathSegment

-- What a segment is printed as, behind its slash.
unfoldable pub print_segment : PathSegment → Bytes
print_segment (static_segment value) = value
print_segment (param_segment value) = codes ":" ++ value
print_segment (splat value) = codes "*"
print_segment unit_segment = []
print_segment (optional_param value) = []

module _ (as_raw_str : PathSegment → Bytes) where
  unfoldable pub needs_slash : PathSegment → Bool
  needs_slash segment =
      not (is_empty (as_raw_str segment)) && not (starts_with (codes "/") (as_raw_str segment))

  -- `to_rf_str_representation`: the loop, which pushes onto `path`.
  unfoldable pub push_segments : Bytes → List PathSegment → Bytes
  push_segments path [] = path
  push_segments path (segment ∷ segments) =
      push_segments
        ((if needs_slash segment then path ++ codes "/" else path) ++ print_segment segment)
        segments

  unfoldable pub to_rf_str_representation : List PathSegment → Bytes
  to_rf_str_representation segments = push_segments [] segments

  unfoldable pub path_or_root : Bytes → Bytes
  path_or_root path = if is_empty path then codes "/" else path

  module _ {Listing : Type 0} (path : Listing → List PathSegment)
      (expand_optionals : List PathSegment → List (List PathSegment)) where
    unfoldable pub into_route_listing : Listing → List (Bytes × Listing)
    into_route_listing listing =
        map (λ expanded. (path_or_root (to_rf_str_representation expanded), listing))
          (expand_optionals (path listing))

    -- `flat_map(IntoRouteListing::into_route_listing)`.
    unfoldable pub all_routes : List Listing → List (Bytes × Listing)
    all_routes [] = []
    all_routes (listing ∷ listings) = into_route_listing listing ++ all_routes listings

module _ {Listing : Type 0} (try_from : Bytes → Result (List Segment) Bytes) where
  unfoldable pub parse_route :
      Bytes × Listing → Result (List Segment) Bytes → Result (Route Listing) RegistrationError
  parse_route (path, listing) (err reason) = err (invalid_route path reason)
  parse_route (path, listing) (ok spec) =
      ok (record { path = path; spec = spec; listing = listing })

  -- The parse of each pattern, up to the first error.
  unfoldable pub parse_routes :
      List (Bytes × Listing) → Result (List (Route Listing)) RegistrationError
  parse_routes [] = ok []
  parse_routes (route ∷ routes) = parse_route route (try_from route.0) >>= λ parsed.
      parse_routes routes >>= λ rest. ok (parsed ∷ rest)

-- `registered_routes`, on the listings that rendering the application found.
unfoldable pub registered_routes :
    {Listing : Type 0}
    → (PathSegment → Bytes)
    → (Listing → List PathSegment)
    → (List PathSegment → List (List PathSegment))
    → (Bytes → Result (List Segment) Bytes)
    → List Listing
    → Result (List (Route Listing)) RegistrationError
registered_routes as_raw_str path expand_optionals try_from listings =
    parse_routes try_from (all_routes as_raw_str path expand_optionals listings)

module _ {Listing Router : Type 0} (empty : Router)
    (add : List Segment → Listing → Router → Router) where
  -- The loop of `router_from_listings`.
  unfoldable pub add_routes : List (Route Listing) → Router → Router
  add_routes [] table = table
  add_routes (route ∷ routes) table = add_routes routes (add route.spec route.listing table)

  unfoldable pub router_from_listings : List (Route Listing) → Router
  router_from_listings routes = add_routes routes empty

  -- `RouteTable::discover`, given what `registered_routes` found: the router of the table.
  unfoldable pub discover :
      (Listing → Bool)
      → Result (List (Route Listing)) RegistrationError
      → Option (List Bytes)
      → Result Router RegistrationError
  discover is_static discovered excluded =
      validated_route_table is_static discovered excluded >>= λ routes.
      ok (router_from_listings routes)

-- `validate_route_table`.
unfoldable pub validate_route_table :
    {Listing : Type 0}
    → (Listing → Bool)
    → Result (List (Route Listing)) RegistrationError
    → Option (List Bytes)
    → Result (Unit {0}) RegistrationError
validate_route_table is_static discovered excluded =
    validated_route_table is_static discovered excluded >>= λ routes. ok tt
