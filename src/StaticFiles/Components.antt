-- ===== src/StaticFiles/Components.antt =====
-- What `validate_components` accepts, and what it returns.
use mathlib.Core.List.{append-nil, append_assoc}
use leptos_wasi.Prelude.{
  ℕ, Bool, true, false, ◌≡◌, ◌≢◌, ◌↔◌, refl, ap, sym, ◌∙◌, List, [], ◌∷◌, ◌++◌, arith, ◌==◌, map,
  if◌then◌else◌, All, Bool-cases, inl, inr, Result, ok, is_empty, bind-eq-ok,
}
use leptos_wasi.Std.Str.{Bytes, split, starts_with, strip_prefix}
use leptos_wasi.Std.Str.Laws.{bytes_eq_iff, join, suffixes}
use leptos_wasi.Std.Utf8.{valid_utf8}
use leptos_wasi.Std.FilePath.{
  Component, normal, dot, dot_dot, push_component, body_components, components,
}
use leptos_wasi.StaticFiles.{
  StaticPathError, from_utf8, reject_dots, normal_value, push_normal, join_components,
  validate_components,
}

-- A component that stays in its directory.
abbrev pub IsInside : Bytes → Type 0
IsInside c = (c ≢ dot) × (c ≢ dot_dot)

-- The parts that name something.
unfoldable pub nonempty : List Bytes → List Bytes
nonempty [] = []
nonempty ([] ∷ ps) = nonempty ps
nonempty ((c ∷ cs) ∷ ps) = (c ∷ cs) ∷ nonempty ps

pub nonempty-All : (P : Bytes → Type 0) (ps : List Bytes) → All P ps → All P (nonempty ps)
unfolding nonempty
nonempty-All P [] h = tt
nonempty-All P ([] ∷ ps) h = nonempty-All P ps h.1
nonempty-All P ((c ∷ cs) ∷ ps) h = (h.0, nonempty-All P ps h.1)

pub nonempty-ne-nil : (ps : List Bytes) → All (λ p. p ≢ []) (nonempty ps)
unfolding nonempty
nonempty-ne-nil [] = tt
nonempty-ne-nil ([] ∷ ps) = nonempty-ne-nil ps
nonempty-ne-nil ((c ∷ cs) ∷ ps) = ((λ e. cc), nonempty-ne-nil ps)

pub nonempty_self : (ps : List Bytes) → All (λ p. p ≢ []) ps → nonempty ps ≡ ps
unfolding nonempty
nonempty_self [] h = refl
nonempty_self ([] ∷ ps) h = absurd (h.0 refl)
nonempty_self ((c ∷ cs) ∷ ps) h = ap (◌∷◌ (c ∷ cs)) (nonempty_self ps h.1)

pub reject_dots_iff : (ps : List Bytes) → (reject_dots ps ≡ ok tt) ↔ All IsInside ps
unfolding reject_dots
reject_dots_iff [] = ((λ _. tt), (λ _. refl))
reject_dots_iff (p ∷ ps) =
    ground (arith, bytes_eq_iff p dot, bytes_eq_iff p dot_dot, reject_dots_iff ps)

push_component-IsInside :
    (first : Bool) (c : ℕ) (cs : Bytes) (rest : List Component)
    → IsInside (c ∷ cs)
    → push_component first (c ∷ cs) rest ≡ normal (c ∷ cs) ∷ rest
unfolding push_component
push_component-IsInside first c cs rest h =
    ground (arith, bytes_eq_iff (c ∷ cs) dot, bytes_eq_iff (c ∷ cs) dot_dot)

body_components-IsInside :
    (first : Bool) (ps : List Bytes)
    → All IsInside ps
    → body_components first ps ≡ map normal (nonempty ps)
unfolding body_components nonempty push_component
body_components-IsInside first [] h = refl
body_components-IsInside first ([] ∷ ps) h = body_components-IsInside false ps h.1
body_components-IsInside first ((c ∷ cs) ∷ ps) h =
    push_component-IsInside first c cs _ h.0
    ∙ ap (◌∷◌ (normal (c ∷ cs))) (body_components-IsInside false ps h.1)

not_slash : (c : ℕ) (cs : Bytes) → starts_with (b'/' ∷ []) (c ∷ cs) ≡ false → (c == b'/') ≡ false
unfolding strip_prefix
not_slash c cs h = ground arith

components_nil : components [] ≡ map normal (nonempty (split b'/' []))
unfolding components nonempty split
components_nil = refl

-- Without a leading separator and dots, `Path::components` lists the parts that name something.
pub components-IsInside :
    (s : Bytes)
    → starts_with (b'/' ∷ []) s ≡ false
    → All IsInside (split b'/' s)
    → components s ≡ map normal (nonempty (split b'/' s))
unfolding components
components-IsInside [] h k = components_nil
components-IsInside (c ∷ cs) h k =
    rw (not_slash c cs h) (body_components-IsInside true (split b'/' (c ∷ cs)) k)

abbrev pub IsText : Bytes → Type 0
IsText p = valid_utf8 p ≡ true

push_normal-IsText :
    (a p : Bytes)
    → IsText p
    → push_normal a p ≡ ok ((if is_empty a then [] else a ++ b'/' ∷ []) ++ p)
unfolding push_normal from_utf8
push_normal-IsText a p h = rw h

ne_nil-append : (a b : Bytes) → a ≢ [] → a ++ b ≢ []
ne_nil-append [] b h = absurd (h refl)
ne_nil-append (x ∷ a) b h = λ e. cc

-- The loop behind the first part: every further part comes behind a separator.
join_components-suffixes :
    (a : Bytes) (ps : List Bytes)
    → a ≢ []
    → All IsText ps
    → join_components a (map normal ps) ≡ ok (a ++ suffixes b'/' ps)
unfolding join_components suffixes normal_value
join_components-suffixes [] ps h k = absurd (h refl)
join_components-suffixes (x ∷ a) [] h k = rw append-nil
join_components-suffixes (x ∷ a) (p ∷ ps) h k = rw (push_normal-IsText (x ∷ a) p k.0) (
    join_components-suffixes ((x ∷ a ++ b'/' ∷ []) ++ p) ps (λ e. cc) k.1
    ∙ ap ok (
        append_assoc (x ∷ a ++ b'/' ∷ []) p (suffixes b'/' ps)
        ∙ append_assoc (x ∷ a) (b'/' ∷ []) (p ++ suffixes b'/' ps)))

pub join_components-join :
    (ps : List Bytes)
    → All (λ p. p ≢ []) ps
    → All IsText ps
    → join_components [] (map normal ps) ≡ ok (join b'/' ps)
unfolding join_components join normal_value
join_components-join [] h k = refl
join_components-join (p ∷ ps) h k =
    rw (push_normal-IsText [] p k.0) (join_components-suffixes p ps h.0 k.1)

push_normal-ok : (a p : Bytes) {r : Bytes} → push_normal a p ≡ ok r → IsText p
unfolding push_normal from_utf8
push_normal-ok a p h = ground arith

-- A run that returns has met well-formed parts only.
join_components-IsText :
    (a : Bytes) (ps : List Bytes) {r : Bytes}
    → join_components a (map normal ps) ≡ ok r
    → All IsText ps
unfolding join_components normal_value
join_components-IsText a [] h = tt
join_components-IsText a (p ∷ ps) h =
    let (next, e, later) =
      bind-eq-ok (push_normal a p) (λ n. join_components n (map normal ps)) h in
    (push_normal-ok a p e, join_components-IsText next ps later)

-- The texts that `validate_components` accepts.
pub record IsRelative (s : Bytes) : Type 0 where
  pub no_root : starts_with (b'/' ∷ []) s ≡ false
  pub inside : All IsInside (split b'/' s)

pub validate_components-join :
    (s : Bytes)
    → IsRelative s
    → All IsText (nonempty (split b'/' s))
    → validate_components s ≡ ok (join b'/' (nonempty (split b'/' s)))
unfolding validate_components
validate_components-join s r k =
    rw
      (
        r.no_root,
        (reject_dots_iff (split b'/' s)).1 r.inside,
        components-IsInside s r.no_root r.inside,
      )
      (join_components-join _ (nonempty-ne-nil (split b'/' s)) k)

pub validate_components-IsRelative :
    (s : Bytes) {p : Bytes} → validate_components s ≡ ok p → IsRelative s
unfolding validate_components
validate_components-IsRelative s h = elim (Bool-cases (starts_with (b'/' ∷ []) s)) [
  | inl e ↦ ground arith
  | inr e ↦
      let (u, dots, later) =
        bind-eq-ok (reject_dots (split b'/' s)) (λ _. join_components [] (components s))
          (rw e at h) in
      record { no_root = e; inside = (reject_dots_iff (split b'/' s)).0 dots }
]

validate_components-IsText :
    (s : Bytes) {p : Bytes}
    → validate_components s ≡ ok p
    → IsRelative s
    → All IsText (nonempty (split b'/' s))
unfolding validate_components
validate_components-IsText s h r =
    let h' =
      rw
        (
          r.no_root,
          (reject_dots_iff (split b'/' s)).1 r.inside,
          components-IsInside s r.no_root r.inside,
        )
        at h in
    join_components-IsText [] _ h'

pub ok-injective : {p q : Bytes} → ◌≡◌ {A = Result Bytes StaticPathError} (ok p) (ok q) → p ≡ q
ok-injective h = cc

-- All that an accepted text fulfils, and the text that comes back.
pub validate_components_lem :
    (s : Bytes) {p : Bytes}
    → validate_components s ≡ ok p
    → IsRelative s
      × All IsText (nonempty (split b'/' s))
      × (p ≡ join b'/' (nonempty (split b'/' s)))
validate_components_lem s h =
    let r = validate_components-IsRelative s h in
    let texts = validate_components-IsText s h r in
    (r, texts, ok-injective (sym h ∙ validate_components-join s r texts))
