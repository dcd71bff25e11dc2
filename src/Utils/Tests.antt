-- ===== src/Utils/Tests.antt =====
-- A redirect that leaves the origin, over a page that a server function has located.
use leptos_wasi.Prelude.{◌≡◌, refl, true, false, [], ◌∷◌, none, some}
use leptos_wasi.Std.Str.{Bytes, bytes_eq}
use leptos_wasi.Std.Codes.{codes}
use leptos_wasi.Http.{HeaderName, Response, location, sync, named, values_of}
use leptos_wasi.Http.Listed.{Headers, listed, listed-IsLawful, remove, items}
use leptos_wasi.Response.{
  ResponseParts, set_status, insert_header, override_status, is_list_valued, extend_entries,
  extend_response,
}
use leptos_wasi.Utils.{signal_redirect, redirect_to, redirect}
use leptos_wasi.Utils.Redirected.{sent_locations, sent_status, redirect-sent}

abbrev signal : HeaderName
signal = codes "serverfnredirect"

abbrev target : Bytes
target = codes "https://accounts.example.com/"

abbrev parts : ResponseParts Headers
parts = record { headers = []; status = none }

abbrev page : Response Headers (Unit {0})
page = record { status = 200; headers = (location, codes "/form") ∷ []; body = sync [] }

run : Unit {0}
unfolding redirect redirect_to signal_redirect set_status insert_header override_status
    is_list_valued extend_entries extend_response named values_of remove items bytes_eq
run = tt

redirects :
    redirect listed signal (λ headers. true) target (some []) (some parts)
    ≡ some (record { headers = (location, target) ∷ []; status = some 302 })
unfolding run
redirects = refl

signals :
    redirect listed signal (λ headers. false) target (some []) (some parts)
    ≡ some (record { headers = (location, target) ∷ (signal, []) ∷ []; status = none })
unfolding run
signals = refl

no_parts : redirect listed signal (λ headers. true) target none (some parts) ≡ some parts
unfolding run
no_parts = refl

apart : bytes_eq location signal ≡ false
unfolding run
apart = refl

redirect-sent_example :
    (after : ResponseParts Headers) × (redirect listed signal
        (λ headers. true)
        target
        (some [])
        (some parts)
      ≡ some after)
    × (values_of location (extend_response listed after page).1.headers
        ≡ sent_locations listed listed-IsLawful signal apart
            (λ headers. true)
            (some target)
            parts
            page)
    × ((extend_response listed after page).1.status
        ≡ sent_status listed listed-IsLawful signal apart
            (λ headers. true)
            (some target)
            true
            none
            200)
redirect-sent_example =
    redirect-sent listed listed-IsLawful signal apart (λ headers. true) target [] parts page
