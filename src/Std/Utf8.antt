-- ===== src/Std/Utf8.antt =====
-- `String::from_utf8`: the well-formed byte sequences of Unicode (no overlong form, no surrogate,
-- nothing above U+10FFFF), as an automaton over the ranges still expected.
pub mod Laws
use leptos_wasi.Prelude.{
  ℕ, ◌≡◌, ◌≤◌, Bool, true, false, ◌&&◌, List, [], ◌∷◌, ◌++◌, Option, none, some, arith, ltb,
  in_range, if◌then◌else◌, All, Bool-cases, ◌⊎◌, inl, inr, refl,
}
use leptos_wasi.Std.Str.{Bytes}

-- The inclusive bounds of one continuation byte.
pub record Span : Type 0 where
  pub lo : ℕ
  pub hi : ℕ

abbrev tail : Span
tail = record { lo = 0x80; hi = 0xbf }

-- What must follow a leading byte; `none` for a byte that leads nothing.
unfoldable pub lead : ℕ → Option (List Span)
lead b =
    if ltb b 0x80
    then some []
    else if in_range 0xc2 0xdf b
    then some (tail ∷ [])
    else if in_range 0xe0 0xe0 b
    then some (record { lo = 0xa0; hi = 0xbf } ∷ tail ∷ [])
    else if in_range 0xed 0xed b
    then some (record { lo = 0x80; hi = 0x9f } ∷ tail ∷ [])
    else if in_range 0xe1 0xef b
    then some (tail ∷ tail ∷ [])
    else if in_range 0xf0 0xf0 b
    then some (record { lo = 0x90; hi = 0xbf } ∷ tail ∷ tail ∷ [])
    else if in_range 0xf1 0xf3 b
    then some (tail ∷ tail ∷ tail ∷ [])
    else if in_range 0xf4 0xf4 b
    then some (record { lo = 0x80; hi = 0x8f } ∷ tail ∷ tail ∷ [])
    else none

-- The automaton: `pending` are the spans that the current character still needs.
unfoldable pub utf8_from : List Span → Bytes → Bool
utf8_from [] [] = true
utf8_from (s ∷ ss) [] = false
utf8_from [] (b ∷ bs) = elim (lead b) [ none ↦ false | some spans ↦ utf8_from spans bs ]
utf8_from (s ∷ ss) (b ∷ bs) = in_range s.lo s.hi b && utf8_from ss bs

abbrev pub valid_utf8 : Bytes → Bool
valid_utf8 = utf8_from []
