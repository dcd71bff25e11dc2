-- ===== src/Counter/Client/Send.antt =====
-- src/examples/counter/src/counter_store.rs: `send_request` and `request` on wasm32. The host's setters,
-- streams, client and clock, and `serde_json::to_vec`, are parameters; `collect_response` is the one of
-- the client.
mod Declared
mod Tests
use leptos_wasi.Prelude.{
  ℕ, Bool, true, false, not, ◌&&◌, ◌*◌, ◌^◌, List, [], ◌∷◌, ◌++◌, Option, none, some, Result, ok,
  err, ◌>>=◌, ok_or, if◌then◌else◌, ltb, is_empty, length,
}
use leptos_wasi.Std.Str.{Bytes}
use leptos_wasi.Std.Codes.{codes}
use leptos_wasi.Std.Decimal.{to_string}
use leptos_wasi.Counter.Client.{
  CounterStoreError, invalid_configuration, request_failed, timeout, StoreConfig, path, RequestKind,
  read, increment, ErrorCode, map_http_error, Source, mapped, collect_response,
}

pub data Method : Type 0 where
  get post : Method

-- `OPERATION_TIMEOUT`, in nanoseconds.
abbrev pub operation_timeout : ℕ
operation_timeout = 2 * 1000000000

abbrev pub Fields : Type 0
Fields = List (Bytes × Bytes)

-- What `send_request` hands to the host.
pub record Outgoing : Type 0 where
  pub method : Method
  pub authority : Bytes
  pub path_with_query : Bytes
  pub header_fields : Fields
  pub timeout_nanos : ℕ
  pub body : Bytes

-- Each setter answers whether the host accepts the value.
pub record Setters : Type 0 where
  pub from_list : Fields → Bool
  pub set_connect_timeout : ℕ → Bool
  pub set_first_byte_timeout : ℕ → Bool
  pub set_between_bytes_timeout : ℕ → Bool
  pub set_method : Method → Bool
  pub set_http_scheme : Bool
  pub set_authority : Bytes → Bool
  pub set_path_with_query : Bytes → Bool

-- `map_err(|_| CounterStoreError::…)?` on a step that succeeds or fails.
abbrev pub or_error : CounterStoreError → Bool → Result (Unit {0}) CounterStoreError
or_error e true = ok tt
or_error e false = err e

-- The header fields for a body.
unfoldable pub header_fields : Bytes → Fields
header_fields body =
    (codes "accept", codes "application/json")
    ∷ (codes "content-length", to_string (length body))
    ∷ (if not (is_empty body) then (codes "content-type", codes "application/json") ∷ [] else [])

-- `u64::try_from(OPERATION_TIMEOUT.as_nanos())`.
unfoldable pub timeout_nanos : Result ℕ CounterStoreError
timeout_nanos =
    if ltb operation_timeout (2 ^ 64) then ok operation_timeout else err invalid_configuration

module _ (to_vec : Bytes → Option Bytes) where
  -- The method, the path and the body of a kind.
  unfoldable pub target_of :
      StoreConfig → RequestKind → Result (Method × (Bytes × Bytes)) CounterStoreError
  target_of config read = ok (get, (path [] config, []))
  target_of config (increment operation_id) = ok_or request_failed (to_vec operation_id) >>= λ body.
      ok (post, (path (codes "/increment") config, body))

  module _ (host : Setters) where
    unfoldable pub set_options : ℕ → Bool
    set_options nanos =
        host.set_connect_timeout nanos
        && host.set_first_byte_timeout nanos
        && host.set_between_bytes_timeout nanos

    unfoldable pub set_request : Method → Bytes → Bytes → Bool
    set_request method authority path_with_query =
        host.set_method method
        && host.set_http_scheme
        && host.set_authority authority
        && host.set_path_with_query path_with_query

    -- `send_request` up to the three futures.
    unfoldable pub prepare_request : StoreConfig → RequestKind → Result Outgoing CounterStoreError
    prepare_request config kind = target_of config kind >>= λ target.
        or_error request_failed (host.from_list (header_fields target.1.1)) >>= λ _.
        timeout_nanos >>= λ nanos. or_error request_failed (set_options nanos) >>= λ _.
        or_error request_failed (set_request target.0 config.authority target.1.0) >>= λ _.
        ok (record {
          method = target.0;
          authority = config.authority;
          path_with_query = target.1.0;
          header_fields = header_fields target.1.1;
          timeout_nanos = nanos;
          body = target.1.1;
        })

-- The host behind the request: what a write of the body leaves over, whether its end is taken, the
-- status and the body of the answer, and the result of the transmission.
pub record Wire (S : Type 0) : Type 0 where
  pub write_all : Bytes → Bytes
  pub write_end : Bool
  pub client_send : Outgoing → Result (ℕ × S) ErrorCode
  pub transmission_result : Result (Unit {0}) ErrorCode

-- The three futures, in the order in which they end.
pub data Part : Type 0 where
  send_and_collect write_body await_transmission : Part

-- Which of the two futures of `request` ends first.
pub data Winner : Type 0 where
  operation deadline : Winner

module _ {S : Type 0} (wire : Wire S) where
  unfoldable pub written : Bytes → Result (Unit {0}) CounterStoreError
  written body =
      if not (is_empty (wire.write_all body))
      then err request_failed
      else or_error request_failed wire.write_end

  module _ (source : Source S) (usize_max fuel : ℕ) where
    -- `none`: the fuel for the reads of the body ran out.
    unfoldable pub collected : Result (ℕ × S) ErrorCode → Option (Result ℕ CounterStoreError)
    collected (err e) = some (err (map_http_error e))
    collected (ok (status, s)) = collect_response source usize_max fuel status s

    -- `futures::try_join!`: the first error, by the order of the ends, or the value.
    unfoldable pub try_join :
        Option (Result ℕ CounterStoreError)
        → Result (Unit {0}) CounterStoreError
        → List Part
        → Option (Result ℕ CounterStoreError)
    try_join answer body [] = answer
    try_join (some (ok value)) body (send_and_collect ∷ parts) =
        try_join (some (ok value)) body parts
    try_join (some (err e)) body (send_and_collect ∷ parts) = some (err e)
    try_join none body (send_and_collect ∷ parts) = none
    try_join answer (ok _) (write_body ∷ parts) = try_join answer (ok tt) parts
    try_join answer (err e) (write_body ∷ parts) = some (err e)
    try_join answer body (await_transmission ∷ parts) =
        let rest = try_join answer body parts in
        elim (mapped source usize_max wire.transmission_result) [
          | ok _ ↦ rest
          | err e ↦ some (err e)
        ]

    on_prepared :
        List Part → Result Outgoing CounterStoreError → Option (Result ℕ CounterStoreError)
    on_prepared parts (err e) = some (err e)
    on_prepared parts (ok request) =
        try_join (collected (wire.client_send request)) (written request.body) parts

    unfoldable pub send_request :
        (Bytes → Option Bytes)
        → Setters
        → List Part
        → StoreConfig
        → RequestKind
        → Option (Result ℕ CounterStoreError)
    unfolding on_prepared
    send_request to_vec host parts config kind =
        on_prepared parts (prepare_request to_vec host config kind)

    -- `select(operation, deadline)`.
    raced : Winner → Option (Result ℕ CounterStoreError) → Option (Result ℕ CounterStoreError)
    raced operation result = result
    raced deadline result = some (err timeout)

    on_deadline :
        Winner
        → Option (Result ℕ CounterStoreError)
        → Result ℕ CounterStoreError
        → Option (Result ℕ CounterStoreError)
    on_deadline winner result (err e) = some (err e)
    on_deadline winner result (ok nanos) = raced winner result

    unfoldable pub request :
        (Bytes → Option Bytes)
        → Setters
        → List Part
        → Winner
        → StoreConfig
        → RequestKind
        → Option (Result ℕ CounterStoreError)
    unfolding on_deadline raced
    request to_vec host parts winner config kind =
        on_deadline winner (send_request to_vec host parts config kind) timeout_nanos
