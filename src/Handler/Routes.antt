-- ===== src/Handler/Routes.antt =====
-- src/handler/routes.rs: the validation of a discovered route table. A `RouteSpec` is its segments, a
-- `RouteListing` is a parameter with its mode; discovery is the list of routes that it gives.
pub mod Distinct
pub mod Discovery
mod Tests
use leptos_wasi.Prelude.{
  ℕ, Bool, true, false, ◌&&◌, List, [], ◌∷◌, Option, none, some, Result, ok, err, ◌>>=◌,
  if◌then◌else◌, any, map,
}
use leptos_wasi.Std.Str.{Bytes, bytes_eq}

-- `routefinder::Segment`.
pub data Segment : Type 0 where
  slash dot wildcard : Segment
  exact param : Bytes → Segment

pub data RouteCollisionSegment : Type 0 where
  slash_key dot_key param_key wildcard_key : RouteCollisionSegment
  exact_key : Bytes → RouteCollisionSegment

unfoldable pub collision_segment : Segment → RouteCollisionSegment
collision_segment slash = slash_key
collision_segment dot = dot_key
collision_segment (exact value) = exact_key value
collision_segment (param name) = param_key
collision_segment wildcard = wildcard_key

unfoldable pub route_collision_key : List Segment → List RouteCollisionSegment
route_collision_key segments = map collision_segment segments

-- The derived equality of keys.
unfoldable pub segment_eq : RouteCollisionSegment → RouteCollisionSegment → Bool
segment_eq slash_key slash_key = true
segment_eq dot_key dot_key = true
segment_eq param_key param_key = true
segment_eq wildcard_key wildcard_key = true
segment_eq (exact_key a) (exact_key b) = bytes_eq a b
segment_eq a b = false

unfoldable pub key_eq : List RouteCollisionSegment → List RouteCollisionSegment → Bool
key_eq [] [] = true
key_eq [] (b ∷ bs) = false
key_eq (a ∷ rest) [] = false
key_eq (a ∷ rest) (b ∷ bs) = segment_eq a b && key_eq rest bs

pub data RegistrationError : Type 0 where
  duplicate_route unsupported_static_ssr : Bytes → RegistrationError
  invalid_route : Bytes → Bytes → RegistrationError

pub record Route (Listing : Type 0) : Type 0 where
  pub path : Bytes
  pub spec : List Segment
  pub listing : Listing

-- `excluded_routes.is_some_and(|excluded| excluded.contains(&path))`.
unfoldable pub is_excluded : Option (List Bytes) → Bytes → Bool
is_excluded none path = false
is_excluded (some excluded) path = any (bytes_eq path) excluded

module _ {Listing : Type 0} (is_static : Listing → Bool) where
  -- The loop of `validated_route_table`; `registered` are the keys inserted so far. The validated
  -- routes are kept whole, although the code drops their paths.
  unfoldable pub validate :
      Option (List Bytes)
      → List (List RouteCollisionSegment)
      → List (Route Listing)
      → Result (List (Route Listing)) RegistrationError
  validate excluded registered [] = ok []
  validate excluded registered (route ∷ routes) =
      let skipped = validate excluded registered routes in
      let kept = validate excluded (route_collision_key route.spec ∷ registered) routes in
      if is_excluded excluded route.path
      then skipped
      else if any (key_eq (route_collision_key route.spec)) registered
      then err (duplicate_route route.path)
      else if is_static route.listing
      then err (unsupported_static_ssr route.path)
      else (kept >>= λ validated. ok (route ∷ validated))

  unfoldable pub validated_route_table :
      Result (List (Route Listing)) RegistrationError
      → Option (List Bytes)
      → Result (List (Route Listing)) RegistrationError
  validated_route_table discovered excluded = discovered >>= λ routes. validate excluded [] routes
