-- ===== src/Handler/Routes/Distinct.antt =====
-- An accepted route table holds no two colliding patterns, no static mode and no excluded path.
use leptos_wasi.Prelude.{
  ◌≡◌, subst, Bool, false, List, [], ◌∷◌, Option, Result, ok, bind-eq-ok, any, All, Bool-cases, inl,
  inr, arith,
}
use leptos_wasi.Std.Str.{Bytes}
use leptos_wasi.Handler.Routes.{
  RouteCollisionSegment, route_collision_key, key_eq, RegistrationError, Route, is_excluded,
  validate, validated_route_table,
}

ok-eq : {A E : Type 0} {x y : A} → Path (Result A E) (ok x) (ok y) → x ≡ y
ok-eq h = cc

-- The key is none of these.
abbrev pub IsFresh : List RouteCollisionSegment → List (List RouteCollisionSegment) → Type 0
IsFresh key = All (λ other. key_eq key other ≡ false)

any-IsFresh :
    (key : List RouteCollisionSegment) (keys : List (List RouteCollisionSegment))
    → any (key_eq key) keys ≡ false
    → IsFresh key keys
any-IsFresh key [] h = tt
any-IsFresh key (k ∷ ks) h = (ground arith, any-IsFresh key ks (ground arith))

module _ {Listing : Type 0} (is_static : Listing → Bool) where
  -- Each route is wanted, not static, and collides with none of the keys before it.
  abbrev pub IsTable :
      Option (List Bytes) → List (List RouteCollisionSegment) → List (Route Listing) → Type 0
  IsTable excluded keys [] = Unit
  IsTable excluded keys (route ∷ routes) =
      (is_excluded excluded route.path ≡ false)
      × (is_static route.listing ≡ false)
      × IsFresh (route_collision_key route.spec) keys
      × IsTable excluded (route_collision_key route.spec ∷ keys) routes

  -- The loop accepts only a table, whatever keys were registered before it.
  validate-IsTable :
      (excluded : Option (List Bytes)) (keys : List (List RouteCollisionSegment))
      (routes : List (Route Listing)) (table : List (Route Listing))
      → validate is_static excluded keys routes ≡ ok table
      → IsTable excluded keys table
  unfolding validate
  validate-IsTable excluded keys [] table h = subst (IsTable excluded keys) (ok-eq h) tt
  validate-IsTable excluded keys (route ∷ routes) table h =
      elim (Bool-cases (is_excluded excluded route.path)) [
        | inl e ↦ validate-IsTable excluded keys routes table (rw e at h)
        | inr e ↦ elim (Bool-cases (any (key_eq (route_collision_key route.spec)) keys)) [
          | inl d ↦ absurd (ground arith)
          | inr d ↦ elim (Bool-cases (is_static route.listing)) [
            | inl s ↦ absurd (ground arith)
            | inr s ↦
                let (rest, k, h') =
                  bind-eq-ok
                    (validate is_static excluded (route_collision_key route.spec ∷ keys) routes) _
                    (rw (e, d, s) at h) in
                subst (IsTable excluded keys) (ok-eq h') (
                  e,
                  s,
                  any-IsFresh _ keys d,
                  validate-IsTable excluded (route_collision_key route.spec ∷ keys) routes rest k,
                )
          ]
        ]
      ]

  -- A route table is accepted only if each of its routes is wanted, has no static mode, and has a
  -- collision key that differs from those of all the routes before it.
  pub validated_route_table-IsTable :
      (discovered : Result (List (Route Listing)) RegistrationError)
      (excluded : Option (List Bytes)) (table : List (Route Listing))
      → validated_route_table is_static discovered excluded ≡ ok table
      → IsTable excluded [] table
  unfolding validated_route_table
  validated_route_table-IsTable discovered excluded table h =
      let (routes, k, h') = bind-eq-ok discovered _ h in
      validate-IsTable excluded [] routes table h'
