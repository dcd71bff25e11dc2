-- ===== src/StaticFiles.antt =====
-- src/static_files.rs: validation of the path that remains behind the prefix of a static route.
-- Texts are byte strings; the loops over an index walk the list, and an escape skips two bytes more.
pub mod Components
pub mod Safety
pub mod Complete
pub mod Stable
mod Tests
use leptos_wasi.Prelude.{
  ℕ, ◌+◌, ◌-◌, ◌*◌, zero, suc, Bool, true, false, not, ◌&&◌, ◌||◌, List, [], ◌∷◌, Option, none,
  some, ◌==◌, in_range, if◌then◌else◌, Result, ok, err, ◌>>=◌, ◌>>◌, map_err, ok_or, is_empty, ◌++◌,
}
use leptos_wasi.Std.Str.{
  Bytes, bytes_eq, split, starts_with, strip_prefix, contains, is_ascii_alphabetic,
}
use leptos_wasi.Std.Utf8.{valid_utf8, utf8_from}
use leptos_wasi.Std.FilePath.{
  Component, prefix, root_dir, cur_dir, parent_dir, normal, dot, dot_dot, components,
}

pub data StaticPathError : Type 0 where
  malformed_percent_encoding invalid_utf8 encoded_separator backslash_separator : StaticPathError
  nul_byte control_character absolute_path platform_prefix current_directory : StaticPathError
  parent_directory residual_percent_encoding : StaticPathError

abbrev pub max_residual_decode_passes : ℕ
max_residual_decode_passes = 8

unfoldable pub decode_hex_digit : ℕ → Option ℕ
decode_hex_digit byte =
    if in_range b'0' b'9' byte
    then some (byte - b'0')
    else if in_range b'a' b'f' byte
    then some (byte - b'a' + 10)
    else if in_range b'A' b'F' byte
    then some (byte - b'A' + 10)
    else none

-- `bytes.get(i).and_then(|byte| decode_hex_digit(*byte))`, at the first and the second byte.
unfoldable pub first_hex : Bytes → Option ℕ
first_hex [] = none
first_hex (c ∷ cs) = decode_hex_digit c

unfoldable pub second_hex : Bytes → Option ℕ
second_hex [] = none
second_hex (c ∷ cs) = first_hex cs

-- `(high << 4) | low`, for digits below 16.
abbrev pub join_hex : ℕ → ℕ → ℕ
join_hex high low = high * 16 + low

-- The byte of a well-formed escape, from what follows its percent sign.
unfoldable pub escape_byte : Bytes → Option ℕ
escape_byte cs = elim (first_hex cs) [
  | none ↦ none
  | some high ↦ elim (second_hex cs) [ none ↦ none | some low ↦ some (join_hex high low) ]
]

-- What one round of a decoding loop pushes, and how many bytes it consumes beyond the first.
pub record Round : Type 0 where
  pub byte : ℕ
  pub extra : ℕ

-- `while index < bytes.len()`: `skip` bytes are consumed already.
unfoldable pub decode_loop :
    (ℕ → Bytes → Result Round StaticPathError) → ℕ → Bytes → Result (List Round) StaticPathError
decode_loop body skip [] = ok []
decode_loop body (suc skip) (c ∷ cs) = decode_loop body skip cs
decode_loop body zero (c ∷ cs) = do r ← body c cs; rest ← decode_loop body r.extra cs; ok (r ∷ rest)

unfoldable pub pushed : List Round → Bytes
pushed [] = []
pushed (r ∷ rs) = r.byte ∷ pushed rs

-- `changed`: some round consumed an escape.
unfoldable pub changed : List Round → Bool
changed [] = false
changed (r ∷ rs) = not (r.extra == 0) || changed rs

-- The body of the loop of `percent_decode_once`.
unfoldable pub strict_round : ℕ → Bytes → Result Round StaticPathError
strict_round c cs =
    if not (c == b'%') then ok (record { byte = c; extra = 0 }) else elim (escape_byte cs) [
      | none ↦ err malformed_percent_encoding
      | some byte ↦
          if byte == b'/' || byte == b'\\'
          then err encoded_separator
          else ok (record { byte = byte; extra = 2 })
    ]

unfoldable pub percent_decode_once : Bytes → Result Bytes StaticPathError
percent_decode_once raw_path = do rounds ← decode_loop strict_round 0 raw_path; ok (pushed rounds)

unfoldable pub validate_byte : ℕ → Result (Unit {0}) StaticPathError
validate_byte b =
    if b == 0
    then err nul_byte
    else if b == b'\\'
    then err backslash_separator
    else if in_range 1 31 b || b == 127
    then err control_character
    else ok tt

unfoldable pub validate_decoded_bytes : Bytes → Result (Unit {0}) StaticPathError
validate_decoded_bytes [] = ok tt
validate_decoded_bytes (b ∷ bs) = do validate_byte b; validate_decoded_bytes bs

-- `String::from_utf8(decoded).map_err(|_| e)`.
unfoldable pub from_utf8 : StaticPathError → Bytes → Result Bytes StaticPathError
from_utf8 e bs = if valid_utf8 bs then ok bs else err e

-- The body of the loop of `decode_residual_once`.
unfoldable pub residual_round : ℕ → Bytes → Result Round StaticPathError
residual_round c cs =
    if c == b'%'
    then elim (escape_byte cs) [
      | none ↦ ok (record { byte = c; extra = 0 })
      | some byte ↦
          if in_range 0 31 byte || byte == 127 || byte == b'/' || byte == b'\\'
          then err residual_percent_encoding
          else ok (record { byte = byte; extra = 2 })
    ]
    else ok (record { byte = c; extra = 0 })

unfoldable pub decode_residual_once : Bytes → Result (Option Bytes) StaticPathError
decode_residual_once value = do
  rounds ← decode_loop residual_round 0 value
  if not (changed rounds)
      then ok none
      else do decoded ← from_utf8 residual_percent_encoding (pushed rounds); ok (some decoded)

-- `decoded.split('/').next().unwrap_or_default()`.
unfoldable pub first_component : List Bytes → Bytes
first_component [] = []
first_component (c ∷ cs) = c

-- A drive letter: `bytes.len() >= 2 && bytes[0].is_ascii_alphabetic() && bytes[1] == b':'`.
unfoldable pub has_drive : Bytes → Bool
has_drive [] = false
has_drive (a ∷ []) = false
has_drive (a ∷ b ∷ cs) = is_ascii_alphabetic a && b == b':'

unfoldable pub validate_platform_prefix : Bytes → Result (Unit {0}) StaticPathError
validate_platform_prefix decoded =
    if has_drive (first_component (split b'/' decoded)) then err platform_prefix else ok tt

-- The first loop of `validate_components`.
unfoldable pub reject_dots : List Bytes → Result (Unit {0}) StaticPathError
reject_dots [] = ok tt
reject_dots (c ∷ cs) =
    let rest = reject_dots cs in
    if bytes_eq c dot
    then err current_directory
    else if bytes_eq c dot_dot
    then err parent_directory
    else rest

-- The match in the second loop.
unfoldable pub normal_value : Component → Result Bytes StaticPathError
normal_value (normal value) = ok value
normal_value cur_dir = err current_directory
normal_value parent_dir = err parent_directory
normal_value root_dir = err absolute_path
normal_value (prefix _) = err platform_prefix

-- One round of the second loop: the separator, then `value.to_str()`.
unfoldable pub push_normal : Bytes → Bytes → Result Bytes StaticPathError
push_normal normalized value = do
  text ← from_utf8 invalid_utf8 value
  ok ((if is_empty normalized then [] else normalized ++ b'/' ∷ []) ++ text)

unfoldable pub join_components : Bytes → List Component → Result Bytes StaticPathError
join_components normalized [] = ok normalized
join_components normalized (c ∷ cs) = do
  value ← normal_value c
  next ← push_normal normalized value
  join_components next cs

unfoldable pub validate_components : Bytes → Result Bytes StaticPathError
validate_components decoded =
    if starts_with (b'/' ∷ []) decoded
    then err absolute_path
    else do reject_dots (split b'/' decoded); join_components [] (components decoded)

-- The checks on what a pass has decoded, and the new probe.
unfoldable pub check_residual : Option Bytes → Result (Option Bytes) StaticPathError
check_residual none = ok none
check_residual (some next) = do
  map_err residual_percent_encoding (validate_platform_prefix next)
  map_err residual_percent_encoding (validate_components next)
  ok (some next)

-- One pass over the probe: `none` when nothing is left to decode.
unfoldable pub residual_pass : Bytes → Result (Option Bytes) StaticPathError
residual_pass probe = do found ← decode_residual_once probe; check_residual found

-- `for _ in 0..MAX_RESIDUAL_DECODE_PASSES`, by the passes left.
unfoldable pub residual_passes : ℕ → Bytes → Result (Unit {0}) StaticPathError
residual_passes zero probe = err residual_percent_encoding
residual_passes (suc left) probe = do
  found ← residual_pass probe
  elim found [ none ↦ ok tt | some next ↦ residual_passes left next ]

unfoldable pub validate_residual_encoding : Bytes → Result (Unit {0}) StaticPathError
validate_residual_encoding decoded =
    if not (contains (b'%' ∷ []) decoded)
    then ok tt
    else residual_passes max_residual_decode_passes decoded

unfoldable pub normalize_static_path : Bytes → Result Bytes StaticPathError
normalize_static_path raw_path = do
  bytes ← percent_decode_once raw_path
  validate_decoded_bytes bytes
  decoded ← from_utf8 invalid_utf8 bytes
  validate_residual_encoding decoded
  validate_platform_prefix decoded
  validate_components decoded
