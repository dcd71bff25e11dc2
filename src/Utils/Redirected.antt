-- ===== src/Utils/Redirected.antt =====
-- A redirect of the application is sent as it was written.
use leptos_wasi.Prelude.{
  ℕ, ◌≡◌, refl, ◌∙◌, Bool, true, false, List, [], ◌∷◌, Option, none, some, Bool-cases, inl, inr,
}
use leptos_wasi.Std.Str.{Bytes, bytes_eq}
use leptos_wasi.Http.{HeaderName, Http, IsLawful, Response, location}
use leptos_wasi.Http.Laws.{get_all-insert_same, get_all-insert_other}
use leptos_wasi.Response.{
  ResponseParts, is_list_valued, set_status, insert_header, override_status, extend_response,
}
use leptos_wasi.Response.Merged.{merged, extend_response-get_all}
use leptos_wasi.Utils.{signal_redirect, redirect_to, redirect}

module _ {H Value : Type 0} (types : Http H Value) (laws : IsLawful types)
    (redirect_header : HeaderName) (other : bytes_eq location redirect_header ≡ false)
    (accepts_html : H → Bool) where
  -- The locations and the status of the response that is sent, where the redirect parses and where
  -- not; `parts` are those before the redirect.
  abbrev pub sent_locations :
      {Stream : Type 0} → Option Value → ResponseParts H → Response H Stream → List Value
  sent_locations none parts response =
      types.get_all location (extend_response types parts response).1.headers
  sent_locations (some value) parts response = value ∷ []

  abbrev pub sent_status : Option Value → Bool → Option ℕ → ℕ → ℕ
  sent_status none html set status = 400
  sent_status (some value) true set status = 302
  sent_status (some value) false set status = override_status set status

  merged_single :
      (old : List Value) (value : Value) (new : List Value)
      → new ≡ value ∷ []
      → merged (is_list_valued location) old new ≡ value ∷ []
  unfolding merged is_list_valued bytes_eq
  merged_single old value new h = rw h refl

  signal_redirect-location :
      (value : Value) (headers : H) (parts : ResponseParts H)
      → types.get_all location
          (signal_redirect types redirect_header accepts_html headers
            (insert_header types location value parts)).headers
        ≡ value ∷ []
  unfolding signal_redirect insert_header set_status
  signal_redirect-location value headers parts = elim (Bool-cases (accepts_html headers)) [
    | inl e ↦ rw e (get_all-insert_same types laws location value parts.headers)
    | inr e ↦ rw e (
        get_all-insert_other types laws location redirect_header _ _ other
        ∙ get_all-insert_same types laws location value parts.headers)
  ]

  redirect_to-locations :
      {Stream : Type 0} (target : Option Value) (headers : H) (parts : ResponseParts H)
      (response : Response H Stream)
      → types.get_all location
          (extend_response types
            (redirect_to types redirect_header accepts_html target headers parts)
            response).1.headers
        ≡ sent_locations target parts response
  unfolding redirect_to
  redirect_to-locations none headers parts response =
      unfold set_status in (unfold extend_response in refl)
  redirect_to-locations (some value) headers parts response =
      extend_response-get_all types laws location _ response
      ∙ merged_single _ value _ (signal_redirect-location value headers parts)

  redirect_to-status :
      {Stream : Type 0} (target : Option Value) (headers : H) (parts : ResponseParts H)
      (response : Response H Stream)
      → (extend_response types
          (redirect_to types redirect_header accepts_html target headers parts)
          response).1.status
        ≡ sent_status target (accepts_html headers) parts.status response.status
  unfolding redirect_to signal_redirect insert_header set_status extend_response override_status
  redirect_to-status none headers parts response = refl
  redirect_to-status (some value) headers parts response =
      elim (Bool-cases (accepts_html headers)) [ inl e ↦ rw e refl | inr e ↦ rw e refl ]

  -- Where the context has a request and response parts: after `redirect`, the response that the parts
  -- are merged into has the target as its one location, as it was written, with 302 if the request
  -- accepts HTML and with the status that it had otherwise; a target that is not a header value is
  -- answered with 400, and changes no location.
  pub redirect-sent :
      {Stream : Type 0} (path : Bytes) (headers : H) (parts : ResponseParts H)
      (response : Response H Stream)
      → (after : ResponseParts H) × (redirect types redirect_header accepts_html path
            (some headers)
            (some parts)
          ≡ some after)
        × (types.get_all location (extend_response types after response).1.headers
            ≡ sent_locations (types.from_str path) parts response)
        × ((extend_response types after response).1.status
            ≡ sent_status (types.from_str path) (accepts_html headers) parts.status response.status)
  unfolding redirect
  redirect-sent path headers parts response = (
    _,
    refl,
    redirect_to-locations (types.from_str path) headers parts response,
    redirect_to-status (types.from_str path) headers parts response,
  )
