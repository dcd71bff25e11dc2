-- ===== src/Handler/Wasip3/Intake.antt =====
-- src/handler/wasip3.rs: what becomes of a Preview 3 request that is taken in, and that a
-- `Content-Length` which is refused is answered alike by both previews.
use leptos_wasi.Prelude.{
  ℕ, ◌≤◌, true, ◌≡◌, refl, [], Option, none, some, Result, ok, err, ◌>>=◌, length,
}
use leptos_wasi.Std.Str.{Bytes}
use leptos_wasi.Std.Codes.{codes}
use leptos_wasi.Http.{Http, Response, content_length}
use leptos_wasi.Request
use leptos_wasi.Request.{RequestError, policy, collect_wasi_body}
use leptos_wasi.Request.Parts.{Parts, Parsers, collect_body}
use leptos_wasi.Handler.Policy.{status, HandlerConfig, RequestPolicyError, validate_content_length}
use leptos_wasi.Handler.Plain.{plain_response}
use leptos_wasi.Handler.Core.{HandlerCore, unclaimed, preset, new, with_preset}
use leptos_wasi.Handler.Wasip2.{policy_response, policy_message, handler_from_request_error}
use leptos_wasi.Handler.Wasip2.Rejected.{IsClientCode, policy_response-IsClientCode}
use leptos_wasi.Handler.Wasip2.Send
use leptos_wasi.Handler.Wasip2.Build.{preset_or_drop, core_of, on_body, on_request_parts}
use leptos_wasi.Handler.Wasip3.{
  HandlerError, wasi, BodyError, length_limit, body_failed, Raced, left, right, Collector,
  on_collected, on_raced, on_validated, ingest, from_ingested, build_with_config,
}

-- The documented behaviour of `Limited`: a body that is collected is within the limit.
pub record IsLimiting {S C : Type 0} (collector : Collector S C) : Type 0 where
  pub collect_within :
      (limit : ℕ) (s : S) (body : Bytes) → collector.collect limit s ≡ ok body → length body ≤ limit
  pub select_within :
      (budget limit : ℕ) (s : S) (body : Bytes)
      → collector.select budget limit s ≡ left (ok body)
      → length body ≤ limit

module _ {S C : Type 0} (collector : Collector S C) where
  -- How the reading of the body ends: without a budget that of the limited body, with one that of the
  -- race against the expiry.
  abbrev pub reading : HandlerConfig → S → Raced C
  reading config s = elim config.request_body_timeout_ns [
    | none ↦ left (collector.collect config.max_request_body_size s)
    | some budget ↦ collector.select budget config.max_request_body_size s
  ]

module _ {H Value : Type 0} (types : Http H Value) where
  abbrev pub declared_length :
      {Uri : Type 0} → ℕ → Parts H Uri → HandlerConfig → Result (Option ℕ) RequestPolicyError
  declared_length u parts config =
      validate_content_length types.to_str u (types.get_all content_length parts.headers)
        config.max_request_body_size

  -- The request is claimed by the plain response with this status and this text.
  abbrev pub Answers :
      {F Stream Router : Type 0} → ℕ → Bytes → HandlerCore F (Response H Stream) H Router → Type 0
  Answers code message core =
      core.selection ≡ preset (plain_response types code message) (codes "request_policy")

module _ {S F H Value Stream Router Uri C X : Type 0} (types : Http H Value) (path : Uri → Bytes)
    (router : Router) (u : ℕ) (internal_error : C) (collector : Collector S C)
    (limiting : IsLimiting collector) where
  -- What building gives, by the header and the end of the body: a handler whose request nobody has
  -- claimed, with the body that was read; a handler that answers with the response of a policy, with
  -- 413 or with 408; or the code of the host, or an internal error if it has none.
  pub data IsTaken (parts : Parts H Uri) (s : S) (config : HandlerConfig)
      : Result (HandlerCore F (Response H Stream) H Router × Bytes) (HandlerError C X)
        → Type 0 where
    taken :
        (core : HandlerCore F (Response H Stream) H Router) (body : Bytes) (declared : Option ℕ)
        → declared_length types u parts config ≡ ok declared
        → reading collector config s ≡ left (ok body)
        → core.selection ≡ unclaimed
        → length body ≤ config.max_request_body_size
        → IsTaken parts s config (ok (core, body))
    rejected :
        (core : HandlerCore F (Response H Stream) H Router) (e : RequestPolicyError)
        → declared_length types u parts config ≡ err e
        → IsClientCode (policy_response e).code
        → Answers types (policy_response e).code (policy_response e).message core
        → IsTaken parts s config (ok (core, []))
    too_large :
        (core : HandlerCore F (Response H Stream) H Router) (declared : Option ℕ)
        → declared_length types u parts config ≡ ok declared
        → reading collector config s ≡ left (err length_limit)
        → Answers types 413 (codes "request body too large") core
        → IsTaken parts s config (ok (core, []))
    timed_out :
        (core : HandlerCore F (Response H Stream) H Router) (declared : Option ℕ)
        → declared_length types u parts config ≡ ok declared
        → reading collector config s ≡ right
        → Answers types 408 (codes "request body timed out") core
        → IsTaken parts s config (ok (core, []))
    host_failed :
        (code : C) (declared : Option ℕ)
        → declared_length types u parts config ≡ ok declared
        → reading collector config s ≡ left (err (body_failed (some code)))
        → IsTaken parts s config (err (wasi code))
    body_error :
        (declared : Option ℕ)
        → declared_length types u parts config ≡ ok declared
        → reading collector config s ≡ left (err (body_failed none))
        → IsTaken parts s config (err (wasi internal_error))

  module _ (parts : Parts H Uri) (s : S) (config : HandlerConfig) (declared : Option ℕ)
      (accepted : declared_length types u parts config ≡ ok declared) where
    on_collected-IsTaken :
        (result : Result Bytes (BodyError C))
        → reading collector config s ≡ left result
        → ((body : Bytes) → result ≡ ok body → length body ≤ config.max_request_body_size)
        → IsTaken parts s config (
            on_collected internal_error config parts result >>= λ i.
            ok (from_ingested types path router config i))
    unfolding on_collected from_ingested new with_preset policy_response policy_message status
    on_collected-IsTaken (ok body) e b = taken _ body declared accepted e refl (b body refl)
    on_collected-IsTaken (err length_limit) e b = too_large _ declared accepted e refl
    on_collected-IsTaken (err (body_failed none)) e b = body_error declared accepted e
    on_collected-IsTaken (err (body_failed (some code))) e b = host_failed code declared accepted e

    on_raced-IsTaken :
        (raced : Raced C)
        → reading collector config s ≡ raced
        → ((body : Bytes) → raced ≡ left (ok body) → length body ≤ config.max_request_body_size)
        → IsTaken parts s config (
            on_raced internal_error config parts raced >>= λ i.
            ok (from_ingested types path router config i))
    unfolding on_raced from_ingested with_preset policy_response policy_message status
    on_raced-IsTaken (left result) e b =
        on_collected-IsTaken result e (λ body h. b body (rw h refl))
    on_raced-IsTaken right e b = timed_out _ declared accepted e refl

    on_budget-IsTaken :
        (expiry : Option ℕ)
        → config.request_body_timeout_ns ≡ expiry
        → IsTaken parts s config (
            on_validated internal_error collector config expiry parts s (ok declared) >>= λ i.
            ok (from_ingested types path router config i))
    unfolding on_validated
    on_budget-IsTaken none e =
        on_collected-IsTaken _ (rw e refl) (λ body h. limiting.collect_within _ s body h)
    on_budget-IsTaken (some budget) e =
        on_raced-IsTaken _ (rw e refl) (λ body h. limiting.select_within budget _ s body h)

  on_validated-IsTaken :
      (parts : Parts H Uri) (s : S) (config : HandlerConfig)
      (validated : Result (Option ℕ) RequestPolicyError)
      → declared_length types u parts config ≡ validated
      → IsTaken parts s config (
          on_validated internal_error collector config config.request_body_timeout_ns parts s
            validated
          >>= λ i. ok (from_ingested types path router config i))
  unfolding on_validated from_ingested with_preset
  on_validated-IsTaken parts s config (err e) h =
      rejected _ e h (policy_response-IsClientCode e) refl
  on_validated-IsTaken parts s config (ok declared) h =
      on_budget-IsTaken parts s config declared h config.request_body_timeout_ns refl

  -- What a Preview 3 request becomes. If its `Content-Length` is refused, a handler that answers with
  -- the response of the policy, 400, 408 or 413; otherwise, by the way the reading of its body ends: if
  -- the body is read, a handler whose request nobody has claimed, with that body, which is within the
  -- limit; if the body exceeds the limit, a handler that answers 413; if the budget runs out, one that
  -- answers 408; and if the body fails, the error with the code of the host, or an internal error if
  -- the failure has none.
  pub build_with_config-IsTaken :
      (parts : Parts H Uri) (s : S) (config : HandlerConfig)
      → IsTaken parts s config
          (build_with_config types path router u internal_error collector parts s config)
  unfolding build_with_config ingest
  build_with_config-IsTaken parts s config = on_validated-IsTaken parts s config _ refl

module _ {F H Value Stream Router Uri : Type 0} (types : Http H Value) (path : Uri → Bytes)
    (router : Router) where
  -- The core of a handler that answers with the response of a policy.
  abbrev pub refused_core :
      HandlerConfig → Parts H Uri → RequestPolicyError → HandlerCore F (Response H Stream) H Router
  refused_core config parts e =
      with_preset (plain_response types (policy_response e).code (policy_response e).message)
        (codes "request_policy") (new router parts.method (path parts.uri) parts.headers config)

module _ {S S₂ H Value Router Uri C X₂ : Type 0} (types : Http H Value) (parsers : Parsers H Uri)
    (path : Uri → Bytes) (router : Router) (u : ℕ) (incoming : Request.Host S₂)
    (host : Send.Host S₂ H X₂ C) (internal_error : C) (collector : Collector S C)
    (F Stream X : Type 0) where
  -- A request whose `Content-Length` is refused is answered alike by both previews, before its body is
  -- read: with the same handler core, which holds the response of the policy, and with no body.
  pub build_with_config-agree :
      (fuel : ℕ) (config : HandlerConfig) (method : Request.Method) (parts : Parts H Uri)
      (w : Send.World S₂) (s : S) (e : RequestPolicyError)
      → validate_content_length types.to_str u
          (types.get_all content_length parts.headers)
          config.max_request_body_size
        ≡ err e
      → (on_request_parts {F = F} {Stream = Stream} types parsers path router incoming host u fuel
            config method
            (ok parts)
            w
          ≡ some (
            ok (record {
              core = refused_core types path router config parts e;
              body = [];
              response_out = true;
            }),
            w,
          ))
        × (build_with_config {F = F} {Stream = Stream} {X = X} types path router u internal_error
              collector parts s config
            ≡ ok (refused_core types path router config parts e, []))
  unfolding on_request_parts collect_body collect_wasi_body on_body build_with_config ingest
      on_validated from_ingested handler_from_request_error preset_or_drop core_of
  build_with_config-agree fuel config method parts w s e h = (rw h refl, rw h refl)
