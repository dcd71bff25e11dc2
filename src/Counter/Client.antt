-- ===== src/Counter/Client.antt =====
-- src/examples/counter/src/counter_store.rs: the client of the counter store. The parser of URIs, JSON,
-- the environment and the host's HTTP client are parameters.
pub mod Send
mod Tests
use leptos_wasi.Prelude.{
  ℕ, zero, suc, ◌+◌, Bool, true, false, not, ◌&&◌, ◌||◌, List, [], ◌∷◌, ◌++◌, Option, none, some,
  Result, ok, err, ◌>>=◌, ok_or, if◌then◌else◌, ◌*◌, ltb, leb, ◌==◌, all, min, is_empty, length,
}
use leptos_wasi.Std.Str.{Bytes, bytes_eq, is_some, is_ascii_digit, is_ascii_alphabetic}
use leptos_wasi.Std.Codes.{codes}

pub data CounterStoreError : Type 0 where
  invalid_configuration request_failed timeout invalid_response response_too_large :
      CounterStoreError

-- `http::uri::Authority` and `http::Uri`, as far as they are read.
pub record Authority : Type 0 where
  pub text : Bytes
  pub host : Bytes
  pub port_u16 : Option ℕ

pub record Uri : Type 0 where
  pub scheme_str : Option Bytes
  pub query : Option Bytes
  pub path : Bytes
  pub authority : Option Authority

pub record StoreConfig : Type 0 where
  pub authority : Bytes
  pub counter_id : Bytes

-- The bytes of an identifier.
unfoldable pub is_identifier_byte : ℕ → Bool
is_identifier_byte byte =
    is_ascii_digit byte || is_ascii_alphabetic byte || byte == b'-' || byte == b'_' || byte == b'.'

unfoldable pub valid_identifier : Bytes → Bool
valid_identifier value =
    not (is_empty value) && leb (length value) 128 && all is_identifier_byte value

-- `uri.scheme_str() != Some("http")`.
abbrev pub is_http : Option Bytes → Bool
is_http none = false
is_http (some scheme) = bytes_eq scheme (codes "http")

-- The first test of `parse`, negated.
unfoldable pub is_plain_uri : Uri → Bool
is_plain_uri uri =
    is_http uri.scheme_str
    && not (is_some uri.query)
    && (is_empty uri.path || bytes_eq uri.path (codes "/"))

-- The second.
unfoldable pub is_loopback : Authority → Bool
is_loopback authority =
    (bytes_eq authority.host (codes "127.0.0.1") || bytes_eq authority.host (codes "localhost"))
    && is_some authority.port_u16

unfoldable pub config_of : Bytes → Authority → Result StoreConfig CounterStoreError
config_of counter_id authority =
    if not (is_loopback authority) || not (valid_identifier counter_id)
    then err invalid_configuration
    else ok (record { authority = authority.text; counter_id = counter_id })

-- `StoreConfig::parse`.
unfoldable pub parse : (Bytes → Option Uri) → Bytes → Bytes → Result StoreConfig CounterStoreError
parse parse_uri url counter_id = ok_or invalid_configuration (parse_uri url) >>= λ uri.
    if not (is_plain_uri uri)
    then err invalid_configuration
    else (ok_or invalid_configuration uri.authority >>= λ authority. config_of counter_id authority)

-- `StoreConfig::path`.
unfoldable pub path : Bytes → StoreConfig → Bytes
path suffix config = codes "/v1/counters/" ++ config.counter_id ++ suffix

-- The values of a variable of the environment.
unfoldable pub values_named : Bytes → List (Bytes × Bytes) → List Bytes
values_named key [] = []
values_named key ((name, value) ∷ environment) =
    let rest = values_named key environment in if bytes_eq name key then value ∷ rest else rest

unfoldable pub at_most_one : List Bytes → Result (Option Bytes) CounterStoreError
at_most_one [] = ok none
at_most_one (value ∷ []) = ok (some value)
at_most_one (value ∷ more ∷ values) = err invalid_configuration

unfoldable pub unique_environment_value :
    List (Bytes × Bytes) → Bytes → Result (Option Bytes) CounterStoreError
unique_environment_value environment key = at_most_one (values_named key environment)

abbrev pub default_counter_id : Bytes
default_counter_id = codes "demo"

abbrev unwrap_or : Bytes → Option Bytes → Bytes
unwrap_or default none = default
unwrap_or default (some value) = value

-- `load_config` behind the lookup of the URL.
unfoldable pub config_at :
    (Bytes → Option Uri)
    → List (Bytes × Bytes)
    → Option Bytes
    → Result (Option StoreConfig) CounterStoreError
config_at parse_uri environment none = ok none
config_at parse_uri environment (some url) =
    unique_environment_value environment (codes "COUNTER_ID") >>= λ counter_id.
    parse parse_uri url (unwrap_or default_counter_id counter_id) >>= λ config. ok (some config)

unfoldable pub load_config :
    (Bytes → Option Uri) → List (Bytes × Bytes) → Result (Option StoreConfig) CounterStoreError
load_config parse_uri environment =
    unique_environment_value environment (codes "COUNTER_STORE_URL")
    >>= config_at parse_uri environment

pub data RequestKind : Type 0 where
  read : RequestKind
  increment : Bytes → RequestKind

module _ (parse_uri : Bytes → Option Uri)
    (request : StoreConfig → RequestKind → Result ℕ CounterStoreError) where
  abbrev requested : RequestKind → Option StoreConfig → Result (Option ℕ) CounterStoreError
  requested kind none = ok none
  requested kind (some config) = request config kind >>= λ value. ok (some value)

  unfoldable pub read_configured_count : List (Bytes × Bytes) → Result (Option ℕ) CounterStoreError
  read_configured_count environment = load_config parse_uri environment >>= requested read

  abbrev counted : Bytes → Option StoreConfig → Result (Option ℕ) CounterStoreError
  counted operation_id none = ok none
  counted operation_id (some config) =
      if not (valid_identifier operation_id)
      then err invalid_configuration
      else requested (increment operation_id) (some config)

  unfoldable pub increment_configured_count :
      List (Bytes × Bytes) → Bytes → Result (Option ℕ) CounterStoreError
  increment_configured_count environment operation_id =
      load_config parse_uri environment >>= counted operation_id

-- The host's `ErrorCode`, as far as it is told apart.
pub data ErrorCode : Type 0 where
  dns_timeout connection_timeout connection_read_timeout connection_write_timeout
        http_response_timeout other_error :
      ErrorCode

unfoldable pub map_http_error : ErrorCode → CounterStoreError
map_http_error dns_timeout = timeout
map_http_error connection_timeout = timeout
map_http_error connection_read_timeout = timeout
map_http_error connection_write_timeout = timeout
map_http_error http_response_timeout = timeout
map_http_error other_error = request_failed

-- `StreamResult`.
pub data StreamResult : Type 0 where
  complete_read dropped cancelled : StreamResult

-- The host: a read of the body, the trailers, the result of the transmission; `from_slice` is
-- `serde_json::from_slice` on the value of a `CounterResponse`.
pub record Source (S : Type 0) : Type 0 where
  pub read_chunk : S → (StreamResult × Bytes) × S
  pub trailers : S → Result (Unit {0}) ErrorCode
  pub write_result : S → Bool
  pub from_slice : Bytes → Option ℕ

abbrev pub max_response_bytes : ℕ
max_response_bytes = 4 * 1024

module _ {S : Type 0} (source : Source S) (usize_max : ℕ) where
  abbrev pub mapped : Result (Unit {0}) ErrorCode → Result (Unit {0}) CounterStoreError
  mapped (ok _) = ok tt
  mapped (err e) = err (map_http_error e)

  -- The arm `StreamResult::Dropped`.
  unfoldable pub finish_response : Bytes → S → Result ℕ CounterStoreError
  finish_response collected s = mapped (source.trailers s) >>= λ _.
      if source.write_result s
      then ok_or invalid_response (source.from_slice collected)
      else err request_failed

  unfoldable pub on_status :
      StreamResult
      → Bytes
      → S
      → Option (Result ℕ CounterStoreError)
      → Option (Result ℕ CounterStoreError)
  on_status complete_read collected s rest = rest
  on_status dropped collected s rest = some (finish_response collected s)
  on_status cancelled collected s rest = some (err request_failed)

  -- The loop of `collect_response`, with fuel for its reads.
  unfoldable pub collect_loop : ℕ → Bytes → S → Option (Result ℕ CounterStoreError)
  collect_loop zero collected s = none
  collect_loop (suc fuel) collected s =
      let answer = source.read_chunk s in
      let rest = collect_loop fuel (collected ++ answer.0.1) answer.1 in
      if ltb max_response_bytes (min (length collected + length answer.0.1) usize_max)
      then some (err response_too_large)
      else on_status answer.0.0 (collected ++ answer.0.1) answer.1 rest

  unfoldable pub collect_response : ℕ → ℕ → S → Option (Result ℕ CounterStoreError)
  collect_response fuel status_code s =
      let collected = collect_loop fuel [] s in
      if not (status_code == 200) then some (err request_failed) else collected
