-- ===== src/Handler/Wasip3/Answer/Refused.antt =====
-- From a request that is refused to the response that the host gets.
use leptos_wasi.Prelude.{
  ℕ, length, if◌then◌else◌, ◌∷◌, ◌≡◌, refl, subst, sym, ◌∙◌, Bool, List, [], Result, ok, err,
}
use leptos_wasi.Std.Str.{Bytes, bytes_eq}
use leptos_wasi.Std.Codes.{codes}
use leptos_wasi.Http.{
  HeaderName, Http, IsLawful, Response, sync, content_type, content_length, x_content_type_options,
}
use leptos_wasi.Request.Parts.{Parts}
use leptos_wasi.Handler.Policy.{HandlerConfig, RequestPolicyError, validate_content_length}
use leptos_wasi.Handler.Plain.{plain_response}
use leptos_wasi.Handler.Core.{preset, HandlerCore, shortcut, is_head, with_preset}
use leptos_wasi.Handler.Core.Calls.{Call, calls}
use leptos_wasi.Handler.Core.Claimed.{calls-IsKept}
use leptos_wasi.Handler.Render.{App, finish_response, or_not_found, extend_some, select, render}
use leptos_wasi.Response.{default, is_list_valued, override_status, extend_response}
use leptos_wasi.Response.Merged.{extend_response-get_all, merged-nil}
use leptos_wasi.Handler.Render.Finished.{finish_response-get_all}
use leptos_wasi.Handler.Wasip2.{policy_response}
use leptos_wasi.Handler.Wasip3.{Collector, build_with_config, ingest, on_validated, from_ingested}
use leptos_wasi.Handler.Wasip3.Traced.{TraceBody}
use leptos_wasi.Handler.Wasip3.Intake.{refused_core}
use leptos_wasi.Handler.Wasip3.Answer.{convert, handle_with_context}

ok-pair : {A E : Type 0} {x y : A} → Path (Result A E) (ok x) (ok y) → x ≡ y
ok-pair h = cc

module _ {H Value : Type 0} (types : Http H Value) where
  -- The plain response of a policy: its status, its text, the length of the text, and no sniffing.
  pub record IsRefusal {Stream : Type 0} (head_only : Bool) (e : RequestPolicyError)
      (response : Response H Stream) : Type 0 where
    status : response.status ≡ (policy_response e).code
    body : response.body ≡ (if head_only then sync [] else sync (policy_response e).message)
    type_ :
        types.get_all content_type response.headers
        ≡ types.text (codes "text/plain; charset=utf-8") ∷ []
    length_ :
        types.get_all content_length response.headers
        ≡ types.number (length (policy_response e).message) ∷ []
    nosniff :
        types.get_all x_content_type_options response.headers ≡ types.text (codes "nosniff") ∷ []

  module _ (laws : IsLawful types) where
    get_all-extend_default :
        {Stream : Type 0} (name : HeaderName) (response : Response H Stream)
        → types.get_all name (extend_response types (default types) response).1.headers
          ≡ types.get_all name response.headers
    unfolding default
    get_all-extend_default name response =
        extend_response-get_all types laws name (default types) response
        ∙ rw (laws.get_all-empty name) (merged-nil (is_list_valued name) _)

    get_all-plain :
        (Stream : Type 0) (name : HeaderName) (code : ℕ) (message : Bytes)
        → types.get_all name
            (extend_response types
              (default types)
              (plain_response types {Stream = Stream} code message)).1.headers
          ≡ (if bytes_eq name content_type
              then types.text (codes "text/plain; charset=utf-8") ∷ []
              else [])
    unfolding plain_response
    get_all-plain Stream name code message =
        get_all-extend_default name (plain_response types code message)
        ∙ laws.get_all-insert name content_type _ types.empty
        ∙ rw (laws.get_all-empty name) refl

    finished-IsRefusal :
        (Stream : Type 0) (head_only : Bool) (e : RequestPolicyError)
        → IsRefusal {Stream = Stream} head_only e (
            finish_response types head_only
              (extend_response types
                (default types)
                (plain_response types (policy_response e).code (policy_response e).message)).1)
    unfolding extend_response default override_status plain_response bytes_eq
    finished-IsRefusal Stream head_only e =
        let sent = finish_response-get_all types laws head_only in
        let plain =
          (extend_response types (default types)
            (plain_response types (policy_response e).code (policy_response e).message)).1 in
        record {
          status = (sent content_type plain).1;
          body = (sent content_type plain).2;
          type_ = (sent content_type plain).0 ∙ rw (get_all-plain _ content_type _ _) refl;
          length_ = (sent content_length plain).0 ∙ rw (get_all-plain _ content_length _ _) refl;
          nosniff =
              (sent x_content_type_options plain).0
              ∙ rw (get_all-plain _ x_content_type_options _ _) refl;
        }

module _ {F H Value Stream Router : Type 0} (types : Http H Value) (laws : IsLawful types)
    (app : App F H Stream Router) (accepts_html : H → Bool) (feature : Bool) where
  render-refused :
      (islands : Bool) (body : Bytes) (core : HandlerCore F (Response H Stream) H Router)
      (e : RequestPolicyError) (class : Bytes)
      → core.selection
        ≡ preset (plain_response types (policy_response e).code (policy_response e).message) class
      → IsRefusal types
          (is_head core.method)
          e
          (render types app accepts_html feature islands body core)
  unfolding render select extend_some or_not_found
  render-refused islands body core e class h =
      rw h (finished-IsRefusal types laws Stream (is_head core.method) e)

module _ {F H Value Stream Router Uri S R C : Type 0} (types : Http H Value) (laws : IsLawful types)
    (app : App F H Stream Router) (accepts_html : H → Bool) (feature : Bool)
    (http_into_wasi_response : Response H Stream → TraceBody → Result R C) (path : Uri → Bytes)
    (router : Router) (usize_max : ℕ) (internal_error : C) (collector : Collector S C) where
  -- A Preview 3 request whose `Content-Length` is refused, whatever the application, its builder calls
  -- and the rest of the request are: if the calls succeed, the host is given, to convert, the plain
  -- response of the policy, with its status, its text, the length of the text and `nosniff`, and with
  -- the text itself unless the request is `HEAD`.
  pub refused-IsAnswered :
      (X : Type 0) (parts : Parts H Uri) (s : S) (config : HandlerConfig) (e : RequestPolicyError)
      (cs : List (Call F H Value Stream Router)) (islands : Bool)
      (built : HandlerCore F (Response H Stream) H Router × Bytes)
      (after : HandlerCore F (Response H Stream) H Router)
      → validate_content_length types.to_str usize_max
          (types.get_all content_length parts.headers)
          config.max_request_body_size
        ≡ err e
      → build_with_config {X = X} types path router usize_max internal_error collector parts s
          config
        ≡ ok built
      → calls types cs built.0 ≡ ok after
      → (response : Response H Stream) × (IsRefusal types (is_head after.method) e response)
        × (handle_with_context {X = X} types app accepts_html feature http_into_wasi_response
              islands built.1 after
            ≡ convert types app accepts_html feature http_into_wasi_response response)
  unfolding handle_with_context build_with_config ingest on_validated from_ingested with_preset
      shortcut
  refused-IsAnswered X parts s config e cs islands built after h made called =
      let core = refused_core types path router config parts e in
      let same = ok-pair (rw h at made) in
      let called' = subst (λ b. calls types cs b.0 ≡ ok after) (sym same) called in
      let kept = calls-IsKept types cs core after refl called' in
      (
        _,
        render-refused types laws app accepts_html feature islands built.1 after e
            (codes "request_policy") (kept.selection),
        refl,
      )
