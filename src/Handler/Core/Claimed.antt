-- ===== src/Handler/Core/Claimed.antt =====
-- The first claim of a request stands, and routes are generated once.
use leptos_wasi.Prelude.{
  ℕ, ◌+◌, ◌≤◌, ◌≡◌, refl, ap, sym, ◌∙◌, subst, Bool, true, false, not, ◌&&◌, List, [], ◌∷◌, Option,
  none, some, Result, ok, err, ◌>>=◌, bind-eq-ok, if◌then◌else◌, arith, Bool-cases, inl, inr,
}
use leptos_wasi.Std.Str.{Bytes, bytes_eq}
use leptos_wasi.Http.{Http, Response}
use leptos_wasi.Handler.Core.{
  HandlerCore, RegistrationError, shortcut, with_server_fn, generate_routes, is_get_or_head,
  method_name,
}
use leptos_wasi.Handler.Core.Files.{
  prefix_is_valid, matches, PrefixUri, StaticRequest, claim_asset, static_files_handler_with,
}
use leptos_wasi.Handler.Core.Calls.{Call, serve, assets, routes, call, calls}

ok-eq : {A E : Type 0} {x y : A} → Path (Result A E) (ok x) (ok y) → x ≡ y
ok-eq h = cc

is_generate : {F H Value Stream Router : Type 0} → Call F H Value Stream Router → ℕ
is_generate (serve m p f) = 0
is_generate (assets u h) = 0
is_generate (routes t) = 1

-- How many calls of a chain generate routes.
unfoldable pub generations :
    {F H Value Stream Router : Type 0} → List (Call F H Value Stream Router) → ℕ
unfolding is_generate
generations [] = 0
generations (c ∷ cs) = is_generate c + generations cs

as_count : Bool → ℕ
as_count true = 1
as_count false = 0

plus_zero : (n : ℕ) → n ≡ n + 0
plus_zero n = omega arith

if_false : {A : Type 0} {b : Bool} (x : A) {y z : A} → b ≡ false → (if b then x else y) ≡ z → y ≡ z
if_false x k e = rw k at e

as_count_le : (b : Bool) → as_count b ≤ 1
unfolding as_count
as_count_le true = omega arith
as_count_le false = omega arith

module _ {F H Value Stream Router : Type 0} (map : Http H Value) where
  -- The claim, and the router, of a request that is claimed stay as they are.
  pub record IsKept (before after : HandlerCore F (Response H Stream) H Router) : Type 0 where
    pub selection : after.selection ≡ before.selection
    pub router : after.ssr_router ≡ before.ssr_router

  call-IsKept :
      (c : Call F H Value Stream Router) (self after : HandlerCore F (Response H Stream) H Router)
      → shortcut self ≡ true
      → call map c self ≡ ok after
      → IsKept self after
  unfolding call with_server_fn static_files_handler_with generate_routes shortcut
  call-IsKept (serve m p f) self after h e =
      subst (IsKept self) (ok-eq (rw h at e)) (record { selection = refl; router = refl })
  call-IsKept (assets none handler) self after h e = absurd cc
  call-IsKept (assets (some uri) handler) self after h e = elim (Bool-cases (prefix_is_valid uri)) [
    | inl k ↦
        subst (IsKept self) (ok-eq (rw (k, h) at e)) (record { selection = refl; router = refl })
    | inr k ↦ absurd (ground arith)
  ]
  call-IsKept (routes table) self after h e = elim (Bool-cases self.routes_registered) [
    | inl k ↦ absurd (ground arith)
    | inr k ↦
        subst (IsKept self) (ok-eq (rw (k, h) at e)) (record { selection = refl; router = refl })
  ]

  IsKept-shortcut :
      (self after : HandlerCore F (Response H Stream) H Router)
      → IsKept self after
      → shortcut self ≡ true
      → shortcut after ≡ true
  unfolding shortcut
  IsKept-shortcut self after k h = rw k.selection h

  -- Once a request is claimed, no further chain of builder calls that succeeds changes the claim or
  -- consults a route table.
  pub calls-IsKept :
      (cs : List (Call F H Value Stream Router))
      (self after : HandlerCore F (Response H Stream) H Router)
      → shortcut self ≡ true
      → calls map cs self ≡ ok after
      → IsKept self after
  unfolding calls
  calls-IsKept [] self after h e =
      subst (IsKept self) (ok-eq e) (record { selection = refl; router = refl })
  calls-IsKept (c ∷ cs) self after h e =
      let (mid, first, rest) = bind-eq-ok (call map c self) _ e in
      let k = call-IsKept c self mid h first in
      let ks = calls-IsKept cs mid after (IsKept-shortcut self mid k h) rest in
      record { selection = ks.selection ∙ k.selection; router = ks.router ∙ k.router }

  if_registered :
      (b r : Bool) (x y : HandlerCore F (Response H Stream) H Router)
      → x.routes_registered ≡ r
      → y.routes_registered ≡ r
      → (if b then x else y).routes_registered ≡ r
  if_registered true r x y h k = h
  if_registered false r x y h k = k

  generated :
      (table : Result Router RegistrationError)
      (self after : HandlerCore F (Response H Stream) H Router)
      → self.routes_registered ≡ false
      → (if shortcut self
          then ok (record self { routes_registered = true })
          else (table >>= λ router.
              ok (record self { ssr_router = router; routes_registered = true })))
        ≡ ok after
      → after.routes_registered ≡ true
  generated (ok router) self after k e = elim (Bool-cases (shortcut self)) [
    | inl h ↦ subst (λ x. x.routes_registered ≡ true) (ok-eq (rw h at e)) refl
    | inr h ↦ subst (λ x. x.routes_registered ≡ true) (ok-eq (rw h at e)) refl
  ]
  generated (err error) self after k e = elim (Bool-cases (shortcut self)) [
    | inl h ↦ subst (λ x. x.routes_registered ≡ true) (ok-eq (rw h at e)) refl
    | inr h ↦ absurd (ground arith)
  ]

  generate_count :
      (table : Result Router RegistrationError)
      (self after : HandlerCore F (Response H Stream) H Router)
      → generate_routes table self ≡ ok after
      → as_count after.routes_registered ≡ as_count self.routes_registered + 1
  unfolding generate_routes as_count
  generate_count table self after e = elim (Bool-cases self.routes_registered) [
    | inl k ↦ absurd (ground arith)
    | inr k ↦ rw (generated table self after k (if_false _ k e), k) refl
  ]

  claim_registered :
      (path : Bytes) (handler : StaticRequest Value → Option (Response H Stream))
      (self : HandlerCore F (Response H Stream) H Router)
      → (claim_asset map path handler self).routes_registered ≡ self.routes_registered
  claim_registered path handler self =
      unfold claim_asset in
      if_registered (not (matches path self.path)) self.routes_registered _ _ refl
        (if_registered (not (is_get_or_head self.method)) self.routes_registered _ _ refl refl)

  assets_registered :
      (uri : PrefixUri) (handler : StaticRequest Value → Option (Response H Stream))
      (self after : HandlerCore F (Response H Stream) H Router)
      → static_files_handler_with map (some uri) handler self ≡ ok after
      → after.routes_registered ≡ self.routes_registered
  unfolding static_files_handler_with
  assets_registered uri handler self after e = elim (Bool-cases (prefix_is_valid uri)) [
    | inr k ↦ absurd (ground arith)
    | inl k ↦ elim (Bool-cases (shortcut self)) [
      | inl h ↦
          subst (λ x. x.routes_registered ≡ self.routes_registered) (ok-eq (rw (k, h) at e)) refl
      | inr h ↦
          subst (λ x. x.routes_registered ≡ self.routes_registered) (ok-eq (rw (k, h) at e))
            (claim_registered uri.path handler self)
    ]
  ]

  call_count :
      (c : Call F H Value Stream Router) (self after : HandlerCore F (Response H Stream) H Router)
      → call map c self ≡ ok after
      → as_count after.routes_registered ≡ as_count self.routes_registered + is_generate c
  unfolding call is_generate
  call_count (serve m p f) self after e =
      ap as_count
        (subst (λ x. x.routes_registered ≡ self.routes_registered) (ok-eq e) (served m p f self))
      ∙ plus_zero _
    where
      served :
          (m p : Bytes) (f : F) (self : HandlerCore F (Response H Stream) H Router)
          → (with_server_fn m p f self).routes_registered ≡ self.routes_registered
      served m p f self =
          unfold with_server_fn in
          if_registered (shortcut self) self.routes_registered _ _ refl (
            if_registered (bytes_eq (method_name self.method) m && bytes_eq self.path p)
              self.routes_registered _ _ refl refl)
  call_count (assets none handler) self after e = absurd (unfold static_files_handler_with in cc)
  call_count (assets (some uri) handler) self after e =
      ap as_count (assets_registered uri handler self after e) ∙ plus_zero _
  call_count (routes table) self after e = generate_count table self after e

  counted :
      (cs : List (Call F H Value Stream Router))
      (self after : HandlerCore F (Response H Stream) H Router)
      → calls map cs self ≡ ok after
      → as_count after.routes_registered ≡ as_count self.routes_registered + generations cs
  unfolding calls generations
  counted [] self after e = ap (λ x. as_count x.routes_registered) (sym (ok-eq e)) ∙ plus_zero _
  counted (c ∷ cs) self after e =
      let (mid, first, rest) = bind-eq-ok (call map c self) _ e in
      omega (arith, call_count c self mid first, counted cs mid after rest)

  -- A chain of builder calls that succeeds generates routes at most once, whatever claims the request
  -- and wherever the calls stand.
  pub calls-generate_once :
      (cs : List (Call F H Value Stream Router))
      (self after : HandlerCore F (Response H Stream) H Router)
      → calls map cs self ≡ ok after
      → generations cs ≤ 1
  calls-generate_once cs self after e =
      omega (arith, counted cs self after e, as_count_le after.routes_registered)
