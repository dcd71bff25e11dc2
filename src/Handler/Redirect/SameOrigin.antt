-- ===== src/Handler/Redirect/SameOrigin.antt =====
-- The redirects of server functions stay on the origin of the application.
use leptos_wasi.Prelude.{
  ℕ, ◌≡◌, refl, sym, subst, not, Bool, true, false, ◌&&◌, ◌||◌, List, [], ◌∷◌, Option, none, some,
  All, is_empty, arith, Bool-cases, Option-cases, inl, inr, ◌⊎◌,
}
use leptos_wasi.Std.Str.{Bytes, starts_with, contains, strip_prefix}
use leptos_wasi.Std.Codes.{codes}
use leptos_wasi.Http.{Http, IsLawful, Response, location, first, is_success, is_redirection}
use leptos_wasi.Http.Laws.{get_all-insert_same}
use leptos_wasi.Handler.Redirect.{
  has_backslash, is_rooted, sanitize_path, sanitize_referrer, sanitized_or_root, promote,
  rewrite_location, set_location, and_then, apply_server_fn_redirect,
}

-- A path that a browser resolves on the same origin: one leading slash, and no backslash, plain or
-- encoded.
pub record IsLocal (path : Bytes) : Type 0 where
  leading : starts_with (codes "/") path ≡ true
  no_authority : starts_with (codes "//") path ≡ false
  no_backslash : contains (codes "\\") path ≡ false
  no_escaped : contains (codes "%5c") path ≡ false
  no_escaped_upper : contains (codes "%5C") path ≡ false

IsLocal-of_tests :
    (path : Bytes) → has_backslash path ≡ false → is_rooted path ≡ true → IsLocal path
unfolding has_backslash is_rooted
IsLocal-of_tests path h k = record {
  leading = ground arith;
  no_authority = ground arith;
  no_backslash = ground arith;
  no_escaped = ground arith;
  no_escaped_upper = ground arith;
}

IsLocal-root : IsLocal (codes "/")
unfolding contains strip_prefix
IsLocal-root = record {
  leading = refl;
  no_authority = refl;
  no_backslash = refl;
  no_escaped = refl;
  no_escaped_upper = refl;
}

and_then-eq-some :
    {A B : Type 0} (o : Option A) (f : A → Option B) (b : B)
    → and_then o f ≡ some b
    → (a : A) × (f a ≡ some b)
and_then-eq-some none f b h = absurd cc
and_then-eq-some (some a) f b h = (a, h)

module _ {H Value : Type 0} (types : Http H Value) (laws : IsLawful types) where
  -- The text of the value is a local path.
  unfoldable pub HasLocal : Value → Type 0
  HasLocal value = (path : Bytes) × (types.to_str value ≡ some path) × IsLocal path

  sanitize_path-HasLocal :
      (path : Bytes) (v : Value) → sanitize_path types path ≡ some v → HasLocal v
  unfolding sanitize_path HasLocal
  sanitize_path-HasLocal path v h = (
    path,
    laws.from_str-to_str path v (ground arith),
    IsLocal-of_tests path (ground arith) (ground arith),
  )

  sanitize_referrer-HasLocal :
      (value v : Value) → sanitize_referrer types value ≡ some v → HasLocal v
  unfolding sanitize_referrer
  sanitize_referrer-HasLocal value v h =
      let (text, h₁) = and_then-eq-some (types.to_str value) _ v h in
      let (path, h₂) = and_then-eq-some (types.path_and_query text) _ v h₁ in
      sanitize_path-HasLocal path v h₂

  sanitized_or_root-HasLocal :
      (value : Value) → HasLocal (sanitized_or_root types (sanitize_referrer types value))
  sanitized_or_root-HasLocal value = elim (Option-cases (sanitize_referrer types value)) [
    | inl e ↦ rw e (
        unfold sanitized_or_root in
        (unfold HasLocal in (codes "/", laws.text-to_str, IsLocal-root)))
    | inr (v, e) ↦ rw e (unfold sanitized_or_root in sanitize_referrer-HasLocal value v e)
  ]

  -- What the redirect policy leaves behind: every `Location` is local, or the status is no
  -- redirection and the response is as it was.
  unfoldable pub LeavesLocal : {Stream : Type 0} → Response H Stream → Response H Stream → Type 0
  LeavesLocal before after =
      All HasLocal (types.get_all location after.headers)
      ⊎ ((is_redirection before.status ≡ false) × (after ≡ before))

  set_location-HasLocal :
      {Stream : Type 0} (before response : Response H Stream) (value : Value)
      → LeavesLocal before (
          set_location types
            (some (sanitized_or_root types (sanitize_referrer types value)))
            response)
  unfolding set_location LeavesLocal
  set_location-HasLocal before response value = inl (
      subst (All HasLocal) (sym (get_all-insert_same types laws location _ response.headers))
        (sanitized_or_root-HasLocal value, tt))

  kept-LeavesLocal :
      {Stream : Type 0} (response : Response H Stream) (locations : List Value)
      → types.get_all location response.headers ≡ locations
      → LeavesLocal response (
          set_location types
            (rewrite_location types response.status none (first locations))
            response)
  unfolding rewrite_location
  kept-LeavesLocal response [] h =
      unfold set_location in (unfold LeavesLocal in inl (subst (All HasLocal) (sym h) tt))
  kept-LeavesLocal response (current ∷ more) h =
      elim (Bool-cases (is_redirection response.status)) [
        | inl e ↦ rw e (set_location-HasLocal _ _ current)
        | inr e ↦ rw e (unfold set_location in (unfold LeavesLocal in inr (e, refl)))
      ]

  -- Whatever a server function answers, and whatever the referrer: after the redirect policy every
  -- value of `Location` is a path on the same origin, which starts with one slash and holds no
  -- backslash, plain or percent-encoded; or the status was no redirection and the response is
  -- unchanged.
  pub apply_server_fn_redirect-LeavesLocal :
      {Stream : Type 0} (response : Response H Stream) (accepts_html : Bool)
      (referrer : Option Value)
      → LeavesLocal response (apply_server_fn_redirect types response accepts_html referrer)
  unfolding apply_server_fn_redirect promote
  apply_server_fn_redirect-LeavesLocal response accepts_html none =
      kept-LeavesLocal response (types.get_all location response.headers) refl
  apply_server_fn_redirect-LeavesLocal response accepts_html (some referrer) =
      elim (Bool-cases (
        accepts_html
        && (is_success response.status || is_redirection response.status)
        && not (not (is_empty (types.get_all location response.headers))))) [
          | inl e ↦ rw e (unfold rewrite_location in set_location-HasLocal response _ referrer)
          | inr e ↦ rw e (kept-LeavesLocal response (types.get_all location response.headers) refl)
        ]

module _ {H Value : Type 0} (types : Http H Value) where
  rewrite_location-none :
      (status : ℕ) (current : Option Value)
      → is_redirection status ≡ false
      → rewrite_location types status none current ≡ none
  unfolding rewrite_location
  rewrite_location-none status none k = refl
  rewrite_location-none status (some current) k = rw k refl

  kept_error :
      {Stream : Type 0} (response : Response H Stream)
      → is_redirection response.status ≡ false
      → set_location types
          (rewrite_location types response.status none
            (first (types.get_all location response.headers)))
          response
        ≡ response
  kept_error response k =
      rw (rewrite_location-none response.status (first (types.get_all location response.headers)) k)
        (unfold set_location in refl)

  -- A response that reports an error is never made a redirect: it is left as it is.
  apply_server_fn_redirect_error :
      {Stream : Type 0} (response : Response H Stream) (accepts_html : Bool)
      (referrer : Option Value)
      → is_success response.status ≡ false
      → is_redirection response.status ≡ false
      → apply_server_fn_redirect types response accepts_html referrer ≡ response
  unfolding apply_server_fn_redirect promote
  apply_server_fn_redirect_error response accepts_html none h k = kept_error response k
  apply_server_fn_redirect_error response accepts_html (some referrer) h k =
      rw (no_promotion accepts_html (is_empty (types.get_all location response.headers)))
        (kept_error response k)
    where
      no_promotion :
          (a b : Bool)
          → (a && (is_success response.status || is_redirection response.status) && not (not b))
            ≡ false
      no_promotion a b = ground arith
