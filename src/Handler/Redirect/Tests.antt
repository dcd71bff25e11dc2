-- ===== src/Handler/Redirect/Tests.antt =====
-- Redirects over plain texts: a header value is its text, and a text that starts with a slash is a
-- URI that is its own path.
use leptos_wasi.Prelude.{ℕ, ◌≡◌, refl, true, false, [], ◌∷◌, none, some}
use leptos_wasi.Std.Str.{Bytes, bytes_eq, contains, strip_prefix}
use leptos_wasi.Std.Codes.{codes}
use leptos_wasi.Http.{Response, location, referer, sync, values_of}
use leptos_wasi.Http.Listed.{Headers, listed, listed-IsLawful, remove}
use leptos_wasi.Handler.Redirect.{
  has_backslash, is_rooted, sanitize_path, sanitize_referrer, sanitized_or_root, promote,
  rewrite_location, set_location, apply_server_fn_redirect, mirror_referrer_spelling,
  mirror_alternate, referrer_spelling,
}
use leptos_wasi.Handler.Redirect.SameOrigin.{LeavesLocal, apply_server_fn_redirect-LeavesLocal}

abbrev answer : ℕ → Headers → Response Headers (Unit {0})
answer status headers = record { status = status; headers = headers; body = sync [] }

abbrev at : Bytes → Headers
at path = (location, path) ∷ []

run : Unit {0}
unfolding apply_server_fn_redirect promote rewrite_location set_location sanitized_or_root
    sanitize_referrer sanitize_path has_backslash is_rooted contains strip_prefix
    mirror_referrer_spelling mirror_alternate values_of remove bytes_eq
run = tt

off_origin :
    apply_server_fn_redirect listed
      (answer 302 (at (codes "https://evil.example.com/take-over")))
      false
      none
    ≡ answer 302 (at (codes "/take-over"))
unfolding run
off_origin = refl

promoted :
    apply_server_fn_redirect listed (answer 200 []) true (some (codes "/form"))
    ≡ answer 302 (at (codes "/form"))
unfolding run
promoted = refl

protocol_relative :
    apply_server_fn_redirect listed (answer 200 []) true (some (codes "//evil.example.com"))
    ≡ answer 302 (at (codes "/"))
unfolding run
protocol_relative = refl

mirrored :
    mirror_referrer_spelling listed ((referrer_spelling, codes "/form") ∷ [])
    ≡ (referrer_spelling, codes "/form") ∷ (referer, codes "/form") ∷ []
unfolding run
mirrored = refl

apply_server_fn_redirect-LeavesLocal_example :
    LeavesLocal listed listed-IsLawful
      (answer 302 (at (codes "https://evil.example.com/take-over")))
      (apply_server_fn_redirect listed
        (answer 302 (at (codes "https://evil.example.com/take-over")))
        false
        none)
apply_server_fn_redirect-LeavesLocal_example =
    apply_server_fn_redirect-LeavesLocal listed listed-IsLawful
      (answer 302 (at (codes "https://evil.example.com/take-over"))) false none
