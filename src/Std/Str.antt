-- ===== src/Std/Str.antt =====
-- `str` methods over the bytes of the text: `split`, `starts_with`, `strip_prefix`, `contains`,
-- `trim`, `is_ascii_digit`, `is_ascii_alphabetic`, and equality.
pub mod Laws
use leptos_wasi.Prelude.{
  ℕ, ◌+◌, ◌*◌, ◌-◌, ◌^◌, ltb, is_empty, Bool, true, false, ◌&&◌, ◌||◌, List, [], ◌∷◌, Option, none,
  some, ◌==◌, in_range, if◌then◌else◌,
}

-- The bytes of a `&str`, a `String` or a `Vec<u8>`.
abbrev pub Bytes : Type 0
Bytes = List ℕ

-- `==` on byte strings.
unfoldable pub bytes_eq : Bytes → Bytes → Bool
bytes_eq [] [] = true
bytes_eq [] (_ ∷ _) = false
bytes_eq (_ ∷ _) [] = false
bytes_eq (x ∷ xs) (y ∷ ys) = x == y && bytes_eq xs ys

abbrev cons_head : ℕ → List Bytes → List Bytes
cons_head c [] = (c ∷ []) ∷ []
cons_head c (x ∷ xs) = (c ∷ x) ∷ xs

-- `str::split` by one ASCII character: never empty, and a separator at an end gives an empty piece.
unfoldable pub split : ℕ → Bytes → List Bytes
split sep [] = [] ∷ []
split sep (c ∷ cs) = let rest = split sep cs in if c == sep then [] ∷ rest else cons_head c rest

-- `str::strip_prefix` with a literal prefix.
unfoldable pub strip_prefix : Bytes → Bytes → Option Bytes
strip_prefix [] s = some s
strip_prefix (p ∷ ps) [] = none
strip_prefix (p ∷ ps) (c ∷ cs) = let rest = strip_prefix ps cs in if p == c then rest else none

abbrev pub is_some {ℓ} : {A : Type ℓ} → Option A → Bool
is_some none = false
is_some (some a) = true

abbrev pub starts_with : Bytes → Bytes → Bool
starts_with p s = is_some (strip_prefix p s)

-- `str::contains` with a literal pattern.
unfoldable pub contains : Bytes → Bytes → Bool
contains p [] = starts_with p []
contains p (c ∷ cs) = starts_with p (c ∷ cs) || contains p cs

abbrev pub is_ascii_digit : ℕ → Bool
is_ascii_digit = in_range b'0' b'9'

abbrev pub is_ascii_alphabetic : ℕ → Bool
is_ascii_alphabetic b = in_range b'a' b'z' b || in_range b'A' b'Z' b

abbrev pub to_lower : ℕ → ℕ
to_lower b = if in_range b'A' b'Z' b then b + 32 else b

-- `str::to_ascii_lowercase`.
unfoldable pub to_ascii_lowercase : Bytes → Bytes
to_ascii_lowercase [] = []
to_ascii_lowercase (b ∷ bs) = to_lower b ∷ to_ascii_lowercase bs

abbrev cons_before : ℕ → Bytes × Bytes → Bytes × Bytes
cons_before c (before, after) = (c ∷ before, after)

-- `str::rsplit_once` by one ASCII character.
unfoldable pub rsplit_once : ℕ → Bytes → Option (Bytes × Bytes)
rsplit_once sep [] = none
rsplit_once sep (c ∷ cs) = elim (rsplit_once sep cs) [
  | none ↦ if c == sep then some ([], cs) else none
  | some parts ↦ some (cons_before c parts)
]

-- `char::is_whitespace` on ASCII.
abbrev pub is_whitespace : ℕ → Bool
is_whitespace b = in_range 9 13 b || b == b' '

unfoldable pub trim_start : Bytes → Bytes
trim_start [] = []
trim_start (c ∷ cs) = let rest = trim_start cs in if is_whitespace c then rest else c ∷ cs

unfoldable pub trim_end : Bytes → Bytes
trim_end [] = []
trim_end (c ∷ cs) =
    let rest = trim_end cs in if is_empty rest && is_whitespace c then [] else c ∷ rest

-- `str::trim` on ASCII text.
abbrev pub trim : Bytes → Bytes
trim s = trim_end (trim_start s)

-- The number that decimal digits denote, behind the number read so far.
unfoldable pub decimal_from : ℕ → Bytes → ℕ
decimal_from n [] = n
decimal_from n (c ∷ cs) = decimal_from (n * 10 + (c - b'0')) cs

-- `str::parse::<u64>` on a text of digits: an overflow is an error.
unfoldable pub parse_u64 : Bytes → Option ℕ
parse_u64 s = if ltb (decimal_from 0 s) (2 ^ 64) then some (decimal_from 0 s) else none
