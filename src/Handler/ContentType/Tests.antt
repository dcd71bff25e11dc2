-- ===== src/Handler/ContentType/Tests.antt =====
-- Content types of a few names.
use leptos_wasi.Prelude.{◌≡◌, refl}
use leptos_wasi.Std.Str.{bytes_eq, split, to_ascii_lowercase, rsplit_once}
use leptos_wasi.Std.FilePath.{components, body_components, push_component, file_name, extension}
use leptos_wasi.Std.Codes.{codes}
use leptos_wasi.Http.Listed.{listed}
use leptos_wasi.Handler.ContentType.{
  content_type_for_static_path, type_or_guess, known_type, find_type,
}

run : Unit {0}
unfolding content_type_for_static_path type_or_guess known_type find_type extension file_name
    components body_components push_component bytes_eq split to_ascii_lowercase rsplit_once
run = tt

nested : content_type_for_static_path listed (codes "pkg/app.min.CSS") ≡ codes "text/css"
unfolding run
nested = refl

hidden : content_type_for_static_path listed (codes "pkg/.css") ≡ codes "application/octet-stream"
unfolding run
hidden = refl

no_extension :
    content_type_for_static_path listed (codes "a.css/LICENSE") ≡ codes "application/octet-stream"
unfolding run
no_extension = refl
