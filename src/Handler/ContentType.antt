-- ===== src/Handler/ContentType.antt =====
-- src/handler/core.rs: `content_type_for_static_path`.
mod Tests
use leptos_wasi.Prelude.{Bool, true, false, List, [], ◌∷◌, Option, none, some, if◌then◌else◌}
use leptos_wasi.Std.Str.{Bytes, bytes_eq, to_ascii_lowercase}
use leptos_wasi.Std.FilePath.{extension}
use leptos_wasi.Std.Codes.{codes}
use leptos_wasi.Http.{Http}

-- The arms of the match, in order.
abbrev pub content_types : List (Bytes × Bytes)
content_types =
    (codes "css", codes "text/css")
    ∷ (codes "gif", codes "image/gif")
    ∷ (codes "htm", codes "text/html")
    ∷ (codes "html", codes "text/html")
    ∷ (codes "ico", codes "image/x-icon")
    ∷ (codes "jpeg", codes "image/jpeg")
    ∷ (codes "jpg", codes "image/jpeg")
    ∷ (codes "js", codes "text/javascript")
    ∷ (codes "json", codes "application/json")
    ∷ (codes "map", codes "text/plain")
    ∷ (codes "txt", codes "text/plain")
    ∷ (codes "mjs", codes "application/javascript")
    ∷ (codes "png", codes "image/png")
    ∷ (codes "svg", codes "image/svg+xml")
    ∷ (codes "ttf", codes "font/ttf")
    ∷ (codes "wasm", codes "application/wasm")
    ∷ (codes "webp", codes "image/webp")
    ∷ (codes "woff", codes "application/font-woff")
    ∷ (codes "woff2", codes "font/woff2")
    ∷ []

unfoldable pub find_type : Bytes → List (Bytes × Bytes) → Option Bytes
find_type name [] = none
find_type name ((ext, type) ∷ types) =
    let rest = find_type name types in if bytes_eq name ext then some type else rest

-- `extension.as_deref()`, looked up.
unfoldable pub known_type : Option Bytes → Option Bytes
known_type none = none
known_type (some ext) = find_type (to_ascii_lowercase ext) content_types

module _ {H Value : Type 0} (types : Http H Value) where
  unfoldable pub type_or_guess : Bytes → Option Bytes → Value
  type_or_guess path none = types.guess path
  type_or_guess path (some type) = types.text type

  unfoldable pub content_type_for_static_path : Bytes → Value
  content_type_for_static_path path = type_or_guess path (known_type (extension path))
