-- ===== src/Counter/Client/Tests.antt =====
-- Configurations, and a response that comes in two chunks.
use leptos_wasi.Prelude.{◌≡◌, refl, true, List, [], ◌∷◌, none, some, ok, err, length}
use leptos_wasi.Std.Str.{Bytes, bytes_eq}
use leptos_wasi.Std.Codes.{codes}
use leptos_wasi.Counter.Client.{
  invalid_configuration, timeout, request_failed, Uri, is_identifier_byte, valid_identifier,
  is_plain_uri, is_loopback, config_of, parse, path, values_named, at_most_one,
  unique_environment_value, config_at, load_config, read_configured_count,
  increment_configured_count, connection_timeout, map_http_error, StreamResult, complete_read,
  dropped, Source, finish_response, on_status, collect_loop, collect_response,
}

abbrev store_uri : Uri
store_uri = record {
  scheme_str = some (codes "http");
  query = none;
  path = codes "/";
  authority =
      some
        (record { text = codes "127.0.0.1:4040"; host = codes "127.0.0.1"; port_u16 = some 4040 });
}

abbrev remote_uri : Uri
remote_uri = record store_uri {
  authority = some (record {
    text = codes "store.example:4040";
    host = codes "store.example";
    port_u16 = some 4040;
  });
}

run : Unit {0}
unfolding parse config_of is_plain_uri is_loopback valid_identifier is_identifier_byte path
    values_named at_most_one unique_environment_value config_at load_config read_configured_count
    increment_configured_count map_http_error finish_response on_status collect_loop
    collect_response bytes_eq
run = tt

accepts :
    parse (λ url. some store_uri) [] (codes "demo")
    ≡ ok (record { authority = codes "127.0.0.1:4040"; counter_id = codes "demo" })
unfolding run
accepts = refl

rejects_remote : parse (λ url. some remote_uri) [] (codes "demo") ≡ err invalid_configuration
unfolding run
rejects_remote = refl

rejects_paths : parse (λ url. some store_uri) [] (codes "../demo") ≡ err invalid_configuration
unfolding run
rejects_paths = refl

path_of :
    path (codes "/increment") (record { authority = []; counter_id = codes "demo" })
    ≡ codes "/v1/counters/demo/increment"
unfolding run
path_of = refl

unconfigured : read_configured_count (λ url. none) (λ config kind. err request_failed) [] ≡ ok none
unfolding run
unconfigured = refl

ambiguous :
    increment_configured_count
      (λ url. none)
      (λ config kind. err request_failed)
      ((codes "COUNTER_STORE_URL", []) ∷ (codes "COUNTER_STORE_URL", []) ∷ [])
      (codes "op")
    ≡ err invalid_configuration
unfolding run
ambiguous = refl

times_out : map_http_error connection_timeout ≡ timeout
unfolding run
times_out = refl

abbrev next_chunk : List Bytes → (StreamResult × Bytes) × List Bytes
next_chunk [] = ((dropped, []), [])
next_chunk (c ∷ cs) = ((complete_read, c), cs)

abbrev chunked : Source (List Bytes)
chunked = record {
  read_chunk = next_chunk;
  trailers = λ s. ok tt;
  write_result = λ s. true;
  from_slice = λ bytes. some (length bytes);
}

collects :
    collect_response chunked 10000 3 200 (codes "{\"value\"" ∷ codes ":7}" ∷ []) ≡ some (ok 11)
unfolding run
collects = refl
