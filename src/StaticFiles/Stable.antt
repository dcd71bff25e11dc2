-- ===== src/StaticFiles/Stable.antt =====
-- An accepted request path keeps its meaning when something behind the callback decodes it again.
use leptos_wasi.Prelude.{
  ℕ, zero, suc, ◌≡◌, refl, [], ◌∷◌, Option, none, some, arith, Bool-cases, inl, inr, Result, ok,
  ◌>>=◌, bind-eq-ok, map_err, map_err-eq-ok,
}
use leptos_wasi.Std.Str.{Bytes, contains}
use leptos_wasi.Std.Str.Laws.{Free, Free-contains}
use leptos_wasi.StaticFiles.Components.{IsRelative, validate_components-IsRelative}
use leptos_wasi.StaticFiles.Safety.{
  NoDrive, normalize_static_path-IsAccepted, validate_platform_prefix-ok,
}
use leptos_wasi.StaticFiles.Complete.{decode_loop-Free}
use leptos_wasi.StaticFiles.{
  StaticPathError, residual_round, decode_residual_once, residual_pass, residual_passes,
  percent_decode_once, check_residual, validate_residual_encoding, validate_platform_prefix,
  validate_components, normalize_static_path, residual_percent_encoding,
}

-- `n` further passes of a percent decoder over the text; a pass that finds nothing is the last.
unfoldable pub decode_passes : ℕ → Bytes → Result Bytes StaticPathError
decode_passes zero s = ok s
decode_passes (suc n) s = do
  found ← decode_residual_once s
  elim found [ none ↦ ok s | some next ↦ decode_passes n next ]

-- A text that names nothing outside its directory.
abbrev pub IsContained : Bytes → Type 0
IsContained s = IsRelative s × NoDrive s

-- After any number of passes the text is contained, and `n` passes reach its final form.
pub record IsStable (n : ℕ) (s : Bytes) : Type 0 where
  pub contained : (k : ℕ) → (t : Bytes) × (decode_passes k s ≡ ok t) × IsContained t
  pub final : Bytes
  pub reaches : decode_passes n s ≡ ok final
  pub is_final : decode_residual_once final ≡ ok none

decode_passes_final :
    (n : ℕ) (s : Bytes) → decode_residual_once s ≡ ok none → decode_passes n s ≡ ok s
unfolding decode_passes
decode_passes_final zero s h = refl
decode_passes_final (suc n) s h = rw h refl

final-IsStable :
    (n : ℕ) (s : Bytes) → decode_residual_once s ≡ ok none → IsContained s → IsStable n s
final-IsStable n s h c = record {
  contained = λ k. (s, decode_passes_final k s h, c);
  final = s;
  reaches = decode_passes_final n s h;
  is_final = h;
}

next-IsStable :
    (n : ℕ) (s next : Bytes)
    → decode_residual_once s ≡ ok (some next)
    → IsContained s
    → IsStable n next
    → IsStable (suc n) s
unfolding decode_passes
next-IsStable n s next h c st = record {
  contained = contained;
  final = st.final;
  reaches = rw h st.reaches;
  is_final = st.is_final;
}
  where
    contained : (k : ℕ) → (t : Bytes) × (decode_passes k s ≡ ok t) × IsContained t
    contained zero = (s, refl, c)
    contained (suc k) = let (t, e, d) = st.contained k in (t, rw h e, d)

some_pass-injective :
    {a b : Option Bytes} → ◌≡◌ {A = Result (Option Bytes) StaticPathError} (ok a) (ok b) → a ≡ b
some_pass-injective h = cc

-- What one pass that returns has found.
abbrev Passed : Bytes → Option Bytes → Type 0
Passed s none = decode_residual_once s ≡ ok none
Passed s (some next) = (decode_residual_once s ≡ ok (some next)) × IsContained next

check_residual-Passed :
    (s : Bytes) (first found : Option Bytes)
    → decode_residual_once s ≡ ok first
    → check_residual first ≡ ok found
    → Passed s found
unfolding check_residual
check_residual-Passed s none found e h = let same = some_pass-injective h in rw (← same) e
check_residual-Passed s (some next) found e h =
    let (_, drive, h₁) =
      bind-eq-ok (map_err residual_percent_encoding (validate_platform_prefix next)) _ h in
    let (p, relative, h₂) =
      bind-eq-ok (map_err residual_percent_encoding (validate_components next)) _ h₁ in
    let same = some_pass-injective h₂ in
    rw (← same) (
      e,
      (
        validate_components-IsRelative next (map_err-eq-ok _ _ relative),
        validate_platform_prefix-ok next tt (map_err-eq-ok _ _ drive),
      ),
    )

residual_pass-Passed :
    (s : Bytes) (found : Option Bytes) → residual_pass s ≡ ok found → Passed s found
unfolding residual_pass
residual_pass-Passed s found h =
    let (first, e, later) = bind-eq-ok (decode_residual_once s) check_residual h in
    check_residual-Passed s first found e later

-- A run of the loop that returns: the probe was contained after each pass, and stopped changing.
residual_passes-IsStable :
    (n : ℕ) (s : Bytes) → residual_passes (suc n) s ≡ ok tt → IsContained s → IsStable n s
unfolding residual_passes
residual_passes-IsStable zero s h c =
    let (found, e, later) = bind-eq-ok (residual_pass s) _ h in
    last found (residual_pass-Passed s found e) later
  where
    last :
        (found : Option Bytes)
        → Passed s found
        → ◌≡◌ {A = Result (Unit {0}) StaticPathError}
            (elim found [ none ↦ ok tt | some next ↦ residual_passes 0 next ])
            (ok tt)
        → IsStable 0 s
    last none p later = final-IsStable 0 s p c
    last (some next) p later = cc
residual_passes-IsStable (suc n) s h c =
    let (found, e, later) = bind-eq-ok (residual_pass s) _ h in
    step (residual_passes-IsStable n) found (residual_pass-Passed s found e) later
  where
    step :
        ((t : Bytes) → residual_passes (suc n) t ≡ ok tt → IsContained t → IsStable n t)
        → (found : Option Bytes) → Passed s found
        → ◌≡◌ {A = Result (Unit {0}) StaticPathError}
            (elim found [ none ↦ ok tt | some next ↦ residual_passes (suc n) next ])
            (ok tt)
        → IsStable (suc n) s
    step ih none p later = final-IsStable (suc n) s p c
    step ih (some next) p later = next-IsStable n s next p.0 c (ih next later p.1)

decode_residual_once-Free : (s : Bytes) → Free b'%' s → decode_residual_once s ≡ ok none
unfolding decode_residual_once
decode_residual_once-Free s h =
    let (rs, e, _, k) =
      decode_loop-Free residual_round (λ c cs k. unfold residual_round in ground arith) s h in
    rw (e, k) refl

validate_residual_encoding-IsStable :
    (s : Bytes) → validate_residual_encoding s ≡ ok tt → IsContained s → IsStable 7 s
unfolding validate_residual_encoding
validate_residual_encoding-IsStable s h c = elim (Bool-cases (contains (b'%' ∷ []) s)) [
  | inl e ↦ residual_passes-IsStable 7 s (rw e at h) c
  | inr e ↦ final-IsStable 7 s (decode_residual_once-Free s (Free-contains b'%' s e)) c
]

-- The decoded form of an accepted request path is stable: whatever number of further
-- percent-decoding passes is made over it, each result stays relative, without "." or ".." parts
-- and without a drive prefix, and no decoding pass changes it after the seventh.
pub normalize_static_path-IsStable :
    (raw path : Bytes)
    → normalize_static_path raw ≡ ok path
    → (decoded : Bytes) × (percent_decode_once raw ≡ ok decoded) × IsStable 7 decoded
normalize_static_path-IsStable raw path h =
    let a = normalize_static_path-IsAccepted raw h in
    (
      a.decoded,
      a.decodes,
      validate_residual_encoding-IsStable a.decoded a.residual
          (validate_components-IsRelative a.decoded a.components, a.no_drive),
    )
