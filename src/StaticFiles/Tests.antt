-- ===== src/StaticFiles/Tests.antt =====
-- Runs of `normalize_static_path` on the inputs of the unit tests of src/static_files.rs.
use leptos_wasi.Prelude.{◌↔◌, arith}
use leptos_wasi.Std.Str.{Bytes}
use leptos_wasi.Std.Str.Laws.{join}
use leptos_wasi.StaticFiles.Components.{nonempty}
use leptos_wasi.StaticFiles.Safety.{IsSafe, normalize_static_path-IsSafe}
use leptos_wasi.StaticFiles.Complete.{
  IsWellFormed, normalize_static_path_iff, normalize_static_path-idempotent,
}
use leptos_wasi.StaticFiles.Stable.{IsStable, normalize_static_path-IsStable}
use leptos_wasi.Prelude.{◌≡◌, refl, ok, err, [], ◌∷◌, ◌++◌}
use leptos_wasi.Std.Codes.{codes}
use leptos_wasi.StaticFiles.{
  decode_hex_digit, first_hex, second_hex, escape_byte, decode_loop, pushed, changed, strict_round,
  percent_decode_once, validate_byte, validate_decoded_bytes, from_utf8, residual_round,
  decode_residual_once, first_component, has_drive, validate_platform_prefix, reject_dots,
  normal_value, push_normal, join_components, validate_components, residual_pass, check_residual,
  residual_passes, validate_residual_encoding, normalize_static_path, encoded_separator,
  invalid_utf8, backslash_separator, control_character, nul_byte, absolute_path, platform_prefix,
  current_directory, parent_directory, residual_percent_encoding, malformed_percent_encoding,
}
use leptos_wasi.Std.FilePath.{push_component, body_components, components}
use leptos_wasi.Std.Str.{bytes_eq, split, strip_prefix, contains}
use leptos_wasi.Std.Utf8.{utf8_from, lead}

-- Every definition that a run looks through.
static_files : Unit {0}
unfolding utf8_from lead decode_hex_digit first_hex second_hex escape_byte decode_loop pushed
    changed strict_round percent_decode_once validate_byte validate_decoded_bytes from_utf8
    residual_round decode_residual_once first_component has_drive validate_platform_prefix
    reject_dots normal_value push_normal join_components validate_components residual_pass
    check_residual residual_passes validate_residual_encoding normalize_static_path push_component
    body_components components bytes_eq split strip_prefix contains
static_files = tt

accepted :
    (normalize_static_path [] ≡ ok [])
    × (normalize_static_path (codes "pkg/images/logo.svg") ≡ ok (codes "pkg/images/logo.svg"))
    × (normalize_static_path (codes "pkg//images///logo.svg") ≡ ok (codes "pkg/images/logo.svg"))
    × (normalize_static_path (codes "caf%C3%A9/my%20file.txt")
        ≡ ok (codes "caf" ++ 0xc3 ∷ 0xa9 ∷ codes "/my file.txt"))
    × (normalize_static_path (codes "pkg/literal-%2541.txt") ≡ ok (codes "pkg/literal-%41.txt"))
unfolding static_files
accepted = (refl, refl, refl, refl, refl)

rejected :
    (normalize_static_path (codes "pkg/%GG") ≡ err malformed_percent_encoding)
    × (normalize_static_path (codes "pkg/%FF") ≡ err invalid_utf8)
    × (normalize_static_path (codes "%2f..%2Fsecret") ≡ err encoded_separator)
    × (normalize_static_path (codes "pkg\\secret") ≡ err backslash_separator)
    × (normalize_static_path (codes "pkg/%00") ≡ err nul_byte)
    × (normalize_static_path (codes "pkg/%1F") ≡ err control_character)
    × (normalize_static_path (codes "/etc/passwd") ≡ err absolute_path)
    × (normalize_static_path (codes "C:secret") ≡ err platform_prefix)
    × (normalize_static_path (codes "pkg/./app.js") ≡ err current_directory)
    × (normalize_static_path (codes "%2e%2e") ≡ err parent_directory)
    × (normalize_static_path (codes "%252Fetc/passwd") ≡ err residual_percent_encoding)
    × (normalize_static_path (codes "%252e%252e/secret") ≡ err residual_percent_encoding)
    × (normalize_static_path (codes "pkg/%25252fsecret") ≡ err residual_percent_encoding)
unfolding static_files
rejected = (refl, refl, refl, refl, refl, refl, refl, refl, refl, refl, refl, refl, refl)

abbrev spaced : Bytes
spaced = codes "caf%C3%A9//my%20file.txt"

abbrev spaced_path : Bytes
spaced_path = codes "caf" ++ 0xc3 ∷ 0xa9 ∷ codes "/my file.txt"

spaced_accepted : normalize_static_path spaced ≡ ok spaced_path
unfolding static_files
spaced_accepted = refl

normalize_static_path-IsSafe_example : IsSafe spaced_path
normalize_static_path-IsSafe_example = normalize_static_path-IsSafe spaced spaced_accepted

normalize_static_path_iff_example :
    (normalize_static_path (codes "pkg//app.js") ≡ ok (codes "pkg/app.js")) ↔ (
      IsWellFormed (codes "pkg//app.js")
      × (codes "pkg/app.js" ≡ join b'/' (nonempty (split b'/' (codes "pkg//app.js")))))
normalize_static_path_iff_example =
    normalize_static_path_iff (codes "pkg//app.js") (codes "pkg/app.js") (omega arith)

normalize_static_path-idempotent_example : normalize_static_path spaced_path ≡ ok spaced_path
normalize_static_path-idempotent_example =
    normalize_static_path-idempotent spaced spaced_path spaced_accepted (omega arith)

doubled_accepted : normalize_static_path (codes "pkg/%2541.txt") ≡ ok (codes "pkg/%41.txt")
unfolding static_files
doubled_accepted = refl

normalize_static_path-IsStable_example :
    (decoded : Bytes) × (percent_decode_once (codes "pkg/%2541.txt") ≡ ok decoded)
    × IsStable 7 decoded
normalize_static_path-IsStable_example =
    normalize_static_path-IsStable (codes "pkg/%2541.txt") (codes "pkg/%41.txt") doubled_accepted
