-- ===== src/Handler/Wasip2/Rejected.antt =====
-- Which failed conversions a client is told of, and how.
use leptos_wasi.Prelude.{ℕ, ◌≡◌, refl, ◌⊎◌, inl, inr, Result, ok, err}
use leptos_wasi.Handler.Policy.{HandlerConfig, RequestPolicyError, status}
use leptos_wasi.Request.{
  RequestError, http, wasi_io, body_too_large, body_read_timeout, body_already_consumed,
  body_stream_unavailable, invalid_headers, policy, client_status,
}
use leptos_wasi.Handler.Wasip2.{
  Plain, policy_message, policy_response, client_rejection, handler_from_request_error,
}

-- The errors that a client cannot have caused: a resource of the host was unavailable.
pub data IsHostFault : RequestError → Type 0 where
  consumed : IsHostFault body_already_consumed
  unavailable : IsHostFault body_stream_unavailable
  headers : IsHostFault invalid_headers

abbrev pub IsClientCode : ℕ → Type 0
IsClientCode code = (code ≡ 400) ⊎ ((code ≡ 408) ⊎ (code ≡ 413))

pub policy_response-IsClientCode : (e : RequestPolicyError) → IsClientCode (policy_response e).code
unfolding policy_response status
policy_response-IsClientCode (RequestPolicyError.body_too_large limit) = inr (inr refl)
policy_response-IsClientCode (RequestPolicyError.body_read_timeout nanoseconds) = inr (inl refl)
policy_response-IsClientCode RequestPolicyError.invalid_content_length = inl refl
policy_response-IsClientCode RequestPolicyError.conflicting_content_length = inl refl

-- A request whose conversion fails is answered with 400, 408 or 413, in a text that does not depend
-- on the configuration; the only errors that are returned instead, and unchanged, are the faults of
-- the host.
pub handler_from_request_error_answers :
    (error : RequestError) (config config' : HandlerConfig)
    → ((response : Plain) × (handler_from_request_error error config ≡ ok response)
        × (handler_from_request_error error config' ≡ ok response)
        × IsClientCode response.code)
      ⊎ (IsHostFault error × (handler_from_request_error error config ≡ err error))
unfolding handler_from_request_error client_rejection client_status policy_message
handler_from_request_error_answers http c c' = inl (_, refl, refl, inl refl)
handler_from_request_error_answers wasi_io c c' = inl (_, refl, refl, inl refl)
handler_from_request_error_answers (body_too_large limit) c c' = inl (
  policy_response (RequestPolicyError.body_too_large c.max_request_body_size),
  refl,
  same,
  policy_response-IsClientCode _,
)
  where
    same :
        Path
          (Result Plain RequestError)
          (ok (policy_response (RequestPolicyError.body_too_large c'.max_request_body_size)))
          (ok (policy_response (RequestPolicyError.body_too_large c.max_request_body_size)))
    same = unfold policy_response in (unfold status in refl)
handler_from_request_error_answers (body_read_timeout nanoseconds) c c' =
    inl (
      _,
      refl,
      refl,
      policy_response-IsClientCode (RequestPolicyError.body_read_timeout nanoseconds),
    )
handler_from_request_error_answers (policy e) c c' =
    inl (_, refl, refl, policy_response-IsClientCode e)
handler_from_request_error_answers body_already_consumed c c' = inr (consumed, refl)
handler_from_request_error_answers body_stream_unavailable c c' = inr (unavailable, refl)
handler_from_request_error_answers invalid_headers c c' = inr (headers, refl)
