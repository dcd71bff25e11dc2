-- ===== src/StaticFiles/Safety.antt =====
-- Whatever `normalize_static_path` accepts is a safe relative lookup key.
use mathlib.Core.List.{append-nil}
use leptos_wasi.Prelude.{
  ℕ, false, ◌≡◌, ◌≢◌, ◌↔◌, ◌≤◌, refl, List, [], ◌∷◌, ◌++◌, arith, All, All-both, inl, inr, ◌⊎◌, ok,
  bind-eq-ok,
}
use leptos_wasi.Std.Str.{Bytes, split, starts_with, strip_prefix}
use leptos_wasi.Std.Str.Laws.{join, suffixes, Free, split-Free, split-All, split-join, join-All}
use leptos_wasi.Std.Utf8.{utf8_from}
use leptos_wasi.Std.Utf8.Laws.{valid_utf8-append}
use leptos_wasi.StaticFiles.Components.{
  IsInside, nonempty, nonempty-All, nonempty-ne-nil, IsText, IsRelative, validate_components_lem,
}
use leptos_wasi.StaticFiles.{
  StaticPathError, validate_byte, validate_decoded_bytes, from_utf8, first_component, has_drive,
  validate_platform_prefix, percent_decode_once, validate_residual_encoding, validate_components,
  normalize_static_path,
}

-- No control character, no NUL, no backslash.
abbrev pub IsPlain : ℕ → Type 0
IsPlain b = (32 ≤ b) × (b ≢ 127) × (b ≢ b'\\')

-- A component that names an entry of its directory.
abbrev pub IsName : Bytes → Type 0
IsName c = (c ≢ []) × IsInside c

abbrev pub NoDrive : Bytes → Type 0
NoDrive s = has_drive (first_component (split b'/' s)) ≡ false

-- A lookup key that stays below the directory of the assets.
pub record IsSafe (path : Bytes) : Type 0 where
  pub plain : All IsPlain path
  pub named : (path ≡ []) ⊎ All IsName (split b'/' path)
  pub no_drive : NoDrive path
  pub text : IsText path

pub validate_decoded_bytes_iff : (bs : Bytes) → (validate_decoded_bytes bs ≡ ok tt) ↔ All IsPlain bs
unfolding validate_decoded_bytes validate_byte
validate_decoded_bytes_iff [] = ((λ _. tt), (λ _. refl))
validate_decoded_bytes_iff (b ∷ bs) = ground (arith, validate_decoded_bytes_iff bs)

suffixes-IsText :
    (p : Bytes) (ps : List Bytes) → IsText p → All IsText ps → IsText (p ++ suffixes b'/' ps)
unfolding suffixes
suffixes-IsText p [] h hs = rw append-nil h
suffixes-IsText p (q ∷ qs) h hs =
    rw (valid_utf8-append p (q ++ suffixes b'/' qs) b'/' (omega arith), h)
      (suffixes-IsText q qs hs.0 hs.1)

pub join-IsText : (ps : List Bytes) → All IsText ps → IsText (join b'/' ps)
unfolding join utf8_from
join-IsText [] h = refl
join-IsText (p ∷ ps) h = suffixes-IsText p ps h.0 h.1

pub first_component-nonempty :
    (s : Bytes) (p : Bytes) (ps : List Bytes)
    → starts_with (b'/' ∷ []) s ≡ false
    → nonempty (split b'/' s) ≡ p ∷ ps
    → first_component (split b'/' s) ≡ p
unfolding nonempty split first_component strip_prefix
first_component-nonempty [] p ps h e = ground arith
first_component-nonempty (c ∷ cs) p ps h e = ground arith

-- The joined parts split into themselves.
pub named_parts :
    (s : Bytes)
    → IsRelative s
    → ((join b'/' (nonempty (split b'/' s)) ≡ []) × (nonempty (split b'/' s) ≡ []))
      ⊎ (split b'/' (join b'/' (nonempty (split b'/' s))) ≡ nonempty (split b'/' s))
named_parts s r = cases (nonempty (split b'/' s)) (nonempty-All (Free b'/') _ (split-Free b'/' s))
  where
    cases :
        (ps : List Bytes)
        → All (Free b'/') ps
        → ((join b'/' ps ≡ []) × (ps ≡ [])) ⊎ (split b'/' (join b'/' ps) ≡ ps)
    cases [] h = inl (unfold join in refl, refl)
    cases (p ∷ ps) h = inr (split-join b'/' p ps h)

join_nil : (ps : List Bytes) → ps ≡ [] → join b'/' ps ≡ []
unfolding join
join_nil [] e = refl
join_nil (p ∷ ps) e = cc

split_nil-NoDrive : NoDrive []
unfolding split first_component has_drive
split_nil-NoDrive = refl

-- The parts of an accepted text, joined, make a safe path.
pub join-IsSafe :
    (s : Bytes)
    → All IsPlain s
    → NoDrive s
    → IsRelative s
    → All IsText (nonempty (split b'/' s))
    → IsSafe (join b'/' (nonempty (split b'/' s)))
join-IsSafe s plain drive r texts = record {
  plain =
      join-All IsPlain b'/' _ (omega arith)
        (nonempty-All (All IsPlain) _ (split-All IsPlain b'/' s plain));
  named = elim (named_parts s r) [ inl e ↦ inl e.0 | inr e ↦ inr (rw e names) ];
  no_drive = elim (named_parts s r) [
    | inl e ↦ rw e.0 split_nil-NoDrive
    | inr e ↦ rw e (no_drive_of (nonempty (split b'/' s)) refl)
  ];
  text = join-IsText _ texts;
}
  where
    names : All IsName (nonempty (split b'/' s))
    names = All-both _ _ _ (nonempty-ne-nil (split b'/' s)) (nonempty-All IsInside _ r.inside)

    no_drive_of :
        (ps : List Bytes)
        → nonempty (split b'/' s) ≡ ps
        → has_drive (first_component (nonempty (split b'/' s))) ≡ false
    no_drive_of [] e = rw e (unfold first_component has_drive in refl)
    no_drive_of (p ∷ ps) e =
        rw e (unfold first_component in rw (← first_component-nonempty s p ps r.no_root e) drive)

-- What an accepted request path has passed on its way, `decoded` being its decoded form.
pub record IsAccepted (raw path : Bytes) : Type 0 where
  pub decoded : Bytes
  pub decodes : percent_decode_once raw ≡ ok decoded
  pub plain : All IsPlain decoded
  pub text : IsText decoded
  pub residual : validate_residual_encoding decoded ≡ ok tt
  pub no_drive : NoDrive decoded
  pub components : validate_components decoded ≡ ok path

from_utf8-ok :
    (e : StaticPathError) (bs : Bytes) {s : Bytes} → from_utf8 e bs ≡ ok s → IsText bs × (s ≡ bs)
unfolding from_utf8
from_utf8-ok e bs h = ground arith

pub validate_platform_prefix-ok :
    (s : Bytes) (u : Unit {0}) → validate_platform_prefix s ≡ ok u → NoDrive s
unfolding validate_platform_prefix
validate_platform_prefix-ok s u h = ground arith

pub normalize_static_path-IsAccepted :
    (raw : Bytes) {path : Bytes} → normalize_static_path raw ≡ ok path → IsAccepted raw path
unfolding normalize_static_path
normalize_static_path-IsAccepted raw h =
    let (d, decodes, h₁) = bind-eq-ok (percent_decode_once raw) _ h in
    let (u, plain, h₂) = bind-eq-ok (validate_decoded_bytes d) _ h₁ in
    let (s, text, h₃) = bind-eq-ok (from_utf8 _ d) _ h₂ in
    let (v, residual, h₄) = bind-eq-ok (validate_residual_encoding s) _ h₃ in
    let (w, drive, h₅) = bind-eq-ok (validate_platform_prefix s) _ h₄ in
    let (t, same) = from_utf8-ok _ d text in
    record {
      decoded = d;
      decodes = decodes;
      plain = (validate_decoded_bytes_iff d).0 plain;
      text = t;
      residual = rw same at residual;
      no_drive = rw same at (validate_platform_prefix-ok s w drive);
      components = rw same at h₅;
    }

-- A path that `normalize_static_path` returns is safe, whatever the request path was: it holds no
-- control character, NUL or backslash, it is empty or its parts between separators are all names
-- other than "", "." and "..", it starts with no drive prefix, and it is well-formed UTF-8.
pub normalize_static_path-IsSafe :
    (raw : Bytes) {path : Bytes} → normalize_static_path raw ≡ ok path → IsSafe path
normalize_static_path-IsSafe raw h =
    let a = normalize_static_path-IsAccepted raw h in
    let (r, texts, joined) = validate_components_lem a.decoded a.components in
    rw joined (join-IsSafe a.decoded a.plain a.no_drive r texts)
