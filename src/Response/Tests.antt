-- ===== src/Response/Tests.antt =====
-- Application headers merged into a response: cookies are added, and a location is replaced.
use leptos_wasi.Prelude.{◌≡◌, refl, [], ◌∷◌, none, some}
use leptos_wasi.Std.Str.{Bytes, bytes_eq}
use leptos_wasi.Std.Codes.{codes}
use leptos_wasi.Http.{Response, location, sync, named, values_of}
use leptos_wasi.Http.Listed.{Headers, listed, listed-IsLawful, remove, items}
use leptos_wasi.Response.{
  ResponseParts, default, insert_header, append_header, is_list_valued, override_status,
  extend_entries, extend_response,
}
use leptos_wasi.Response.Merged.{merged, extend_response-get_all, extend_response_twice}

abbrev cookie : Bytes
cookie = codes "set-cookie"

abbrev page : Response Headers (Unit {0})
page = record {
  status = 200;
  headers = (location, codes "/a") ∷ (cookie, codes "s=1") ∷ [];
  body = sync [];
}

abbrev parts : ResponseParts Headers
parts = record { headers = (cookie, codes "t=2") ∷ (location, codes "/b") ∷ []; status = some 302 }

run : Unit {0}
unfolding extend_response extend_entries override_status is_list_valued default insert_header
    append_header named values_of remove items bytes_eq merged
run = tt

merges : (extend_response listed parts page).1 ≡ record {
  status = 302;
  headers = (cookie, codes "s=1") ∷ (cookie, codes "t=2") ∷ (location, codes "/b") ∷ [];
  body = sync [];
}
unfolding run
merges = refl

set_up :
    append_header listed cookie
      (codes "t=2")
      (insert_header listed location (codes "/b") (default listed))
    ≡ record { headers = (location, codes "/b") ∷ (cookie, codes "t=2") ∷ []; status = none }
unfolding run
set_up = refl

extend_response-get_all_example :
    values_of cookie (extend_response listed parts page).1.headers
    ≡ merged
        (is_list_valued cookie)
        (values_of cookie page.headers)
        (values_of cookie parts.headers)
extend_response-get_all_example = extend_response-get_all listed listed-IsLawful cookie parts page

extend_response_twice_example :
    (values_of cookie
        (extend_response listed
          (extend_response listed parts page).0
          (extend_response listed parts page).1).1.headers
      ≡ values_of cookie (extend_response listed parts page).1.headers)
    × ((extend_response listed
          (extend_response listed parts page).0
          (extend_response listed parts page).1).1.status
        ≡ (extend_response listed parts page).1.status)
extend_response_twice_example = extend_response_twice listed listed-IsLawful cookie parts page
