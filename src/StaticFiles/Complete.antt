-- ===== src/StaticFiles/Complete.antt =====
-- On request paths without escapes `normalize_static_path` accepts exactly the well-formed ones.
use mathlib.Core.List.{append-nil}
use leptos_wasi.Prelude.{
  ℕ, Bool, true, false, ◌≡◌, ◌≢◌, ◌↔◌, refl, ap, sym, ◌∙◌, List, [], ◌∷◌, ◌++◌, arith, All, All-map,
  inl, inr, Result, ok, ◌&&◌,
}
use leptos_wasi.Std.Str.{Bytes, split, starts_with, strip_prefix}
use leptos_wasi.Std.Str.Laws.{join, suffixes, Free, join-split, contains-Free}
use leptos_wasi.Std.Utf8.Laws.{valid_utf8-append}
use leptos_wasi.StaticFiles.Components.{
  ok-injective, IsInside, nonempty, nonempty-All, nonempty_self, IsText, IsRelative,
  validate_components_lem, validate_components-join,
}
use leptos_wasi.StaticFiles.Safety.{
  IsPlain, NoDrive, IsSafe, IsAccepted, normalize_static_path-IsAccepted,
  validate_decoded_bytes_iff, normalize_static_path-IsSafe,
}
use leptos_wasi.StaticFiles.{
  StaticPathError, Round, decode_loop, pushed, changed, strict_round, from_utf8,
  validate_platform_prefix, percent_decode_once, validate_residual_encoding, normalize_static_path,
}

-- A body that copies every byte but the percent sign makes a loop that copies the text.
pub decode_loop-Free :
    (body : ℕ → Bytes → Result Round StaticPathError)
    → ((c : ℕ) (cs : Bytes) → c ≢ b'%' → body c cs ≡ ok (record { byte = c; extra = 0 }))
    → (s : Bytes) → Free b'%' s
    → (rs : List Round) × (decode_loop body 0 s ≡ ok rs) × (pushed rs ≡ s) × (changed rs ≡ false)
unfolding decode_loop pushed changed
decode_loop-Free body copies [] h = ([], refl, refl, refl)
decode_loop-Free body copies (c ∷ cs) h =
    let (rs, e, p, k) = decode_loop-Free body copies cs h.1 in
    (record { byte = c; extra = 0 } ∷ rs, rw (copies c cs h.0, e) refl, ap (◌∷◌ c) p, k)

pub percent_decode_once-Free : (s : Bytes) → Free b'%' s → percent_decode_once s ≡ ok s
unfolding percent_decode_once
percent_decode_once-Free s h =
    let (rs, e, p, _) =
      decode_loop-Free strict_round (λ c cs k. unfold strict_round in ground arith) s h in
    rw e (ap ok p)

residual-Free : (s : Bytes) → Free b'%' s → validate_residual_encoding s ≡ ok tt
unfolding validate_residual_encoding
residual-Free s h = rw (contains-Free b'%' s h)

suffixes-texts :
    (p : Bytes) (ps : List Bytes) → IsText (p ++ suffixes b'/' ps) → All IsText (p ∷ ps)
unfolding suffixes
suffixes-texts p [] h = (rw append-nil at h, tt)
suffixes-texts p (q ∷ qs) h =
    let both = rw (valid_utf8-append p (q ++ suffixes b'/' qs) b'/' (omega arith)) at h in
    let (left, right) = and_parts _ _ both in (left, suffixes-texts q qs right)
  where
    and_parts : (a b : Bool) → (a && b) ≡ true → (a ≡ true) × (b ≡ true)
    and_parts true b e = (refl, e)
    and_parts false b e = absurd (cc e)

texts_of_join : (ps : List Bytes) → IsText (join b'/' ps) → All IsText ps
unfolding join
texts_of_join [] h = tt
texts_of_join (p ∷ ps) h = suffixes-texts p ps h

-- The parts of a well-formed text are well-formed.
pub split-IsText : (s : Bytes) → IsText s → All IsText (split b'/' s)
split-IsText s h = texts_of_join (split b'/' s) (rw join-split h)

-- The request paths without escapes that name an asset.
pub record IsWellFormed (raw : Bytes) : Type 0 where
  pub plain : All IsPlain raw
  pub text : IsText raw
  pub no_drive : NoDrive raw
  pub relative : IsRelative raw

normalize-IsWellFormed :
    (raw : Bytes)
    → Free b'%' raw
    → IsWellFormed raw
    → normalize_static_path raw ≡ ok (join b'/' (nonempty (split b'/' raw)))
unfolding normalize_static_path from_utf8 validate_platform_prefix
normalize-IsWellFormed raw free w =
    rw
      (
        percent_decode_once-Free raw free,
        (validate_decoded_bytes_iff raw).1 w.plain,
        w.text,
        residual-Free raw free,
        w.no_drive,
      )
      (validate_components-join raw w.relative (nonempty-All IsText _ (split-IsText raw w.text)))

IsAccepted-IsWellFormed :
    (raw path : Bytes)
    → Free b'%' raw
    → IsAccepted raw path
    → IsWellFormed raw × (path ≡ join b'/' (nonempty (split b'/' raw)))
IsAccepted-IsWellFormed raw path free a =
    let same = ok-injective (sym a.decodes ∙ percent_decode_once-Free raw free) in
    let (r, texts, joined) = validate_components_lem a.decoded a.components in
    (
      record {
        plain = rw same at a.plain;
        text = rw same at a.text;
        no_drive = rw same at a.no_drive;
        relative = rw same at r;
      },
      rw same at joined,
    )

-- A request path without a percent sign is accepted exactly when it is well-formed: no control
-- character, NUL or backslash, valid UTF-8, no drive prefix, no leading separator, and no "." or
-- ".." between separators; and then the result is its non-empty parts joined by single separators.
pub normalize_static_path_iff :
    (raw path : Bytes)
    → Free b'%' raw
    → (normalize_static_path raw ≡ ok path)
      ↔ (IsWellFormed raw × (path ≡ join b'/' (nonempty (split b'/' raw))))
normalize_static_path_iff raw path free = (
  (λ h. IsAccepted-IsWellFormed raw path free (normalize_static_path-IsAccepted raw h)),
  (λ w. normalize-IsWellFormed raw free w.0 ∙ ap ok (sym w.1)),
)

IsSafe-not_root : (p : Bytes) → IsSafe p → starts_with (b'/' ∷ []) p ≡ false
unfolding strip_prefix split
IsSafe-not_root [] s = refl
IsSafe-not_root (c ∷ cs) s = ground arith

IsSafe-IsInside : (p : Bytes) → IsSafe p → All IsInside (split b'/' p)
IsSafe-IsInside p s = elim s.named [
  | inl e ↦ rw e (unfold split in (((λ x. cc), (λ x. cc)), tt))
  | inr names ↦ All-map _ _ _ (λ c n. n.1) names
]

IsSafe-join : (p : Bytes) → IsSafe p → p ≡ join b'/' (nonempty (split b'/' p))
IsSafe-join p s = elim s.named [
  | inl e ↦ rw e (unfold split nonempty join in refl)
  | inr names ↦
      rw (nonempty_self (split b'/' p) (All-map _ _ _ (λ c n. n.0) names)) (sym (join-split b'/' p))
]

-- A path that was accepted and holds no percent sign is a fixed point: validating it again
-- returns it unchanged.
pub normalize_static_path-idempotent :
    (raw path : Bytes)
    → normalize_static_path raw ≡ ok path
    → Free b'%' path
    → normalize_static_path path ≡ ok path
normalize_static_path-idempotent raw path h free =
    let s = normalize_static_path-IsSafe raw h in
    (normalize_static_path_iff path path free).1 (
      record {
        plain = s.plain;
        text = s.text;
        no_drive = s.no_drive;
        relative = record { no_root = IsSafe-not_root path s; inside = IsSafe-IsInside path s };
      },
      IsSafe-join path s,
    )
