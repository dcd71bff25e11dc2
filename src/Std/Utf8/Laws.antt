-- ===== src/Std/Utf8/Laws.antt =====
-- A text is well-formed exactly when the parts on both sides of an ASCII byte are.
use leptos_wasi.Prelude.{
  ℕ, ◌≡◌, ◌≤◌, ◌<◌, ◌&&◌, List, [], ◌∷◌, ◌++◌, some, arith, All, Option-cases, inl, inr, refl,
}
use leptos_wasi.Std.Str.{Bytes}
use leptos_wasi.Std.Utf8.{Span, lead, utf8_from, valid_utf8}

-- The spans of continuation bytes, which no ASCII byte meets.
abbrev IsContinuation : List Span → Type 0
IsContinuation = All (λ s. 0x80 ≤ s.lo)

lead-IsContinuation : (b : ℕ) (spans : List Span) → lead b ≡ some spans → IsContinuation spans
unfolding lead
lead-IsContinuation b spans h = ground arith

lead_ascii : (b : ℕ) → b < 0x80 → lead b ≡ some []
unfolding lead
lead_ascii b h = ground arith

utf8_from-append :
    (pending : List Span) (s t : Bytes) (sep : ℕ)
    → sep < 0x80
    → IsContinuation pending
    → utf8_from pending (s ++ sep ∷ t) ≡ (utf8_from pending s && utf8_from [] t)
unfolding utf8_from
utf8_from-append [] [] t sep h k = rw (lead_ascii sep h, utf8_from) refl
utf8_from-append (p ∷ ps) [] t sep h k = ground arith
utf8_from-append [] (b ∷ bs) t sep h k = elim (Option-cases (lead b)) [
  | inl e ↦ rw (e, utf8_from) refl
  | inr (spans, e) ↦
      rw (e, utf8_from) (utf8_from-append spans bs t sep h (lead-IsContinuation b spans e))
]
utf8_from-append (p ∷ ps) (b ∷ bs) t sep h k = ground (arith, utf8_from-append ps bs t sep h k.1)

pub valid_utf8-append :
    (s t : Bytes) (sep : ℕ)
    → sep < 0x80
    → valid_utf8 (s ++ sep ∷ t) ≡ (valid_utf8 s && valid_utf8 t)
valid_utf8-append s t sep h = utf8_from-append [] s t sep h tt
