-- ===== src/Counter/Client/Send/Tests.antt =====
-- An increment that is sent to a store and answered in two chunks.
use leptos_wasi.Prelude.{◌≡◌, refl, true, false, List, [], ◌∷◌, some, ok, err, length}
use leptos_wasi.Std.Str.{Bytes}
use leptos_wasi.Std.Codes.{codes}
use leptos_wasi.Std.Decimal.{to_string}
use leptos_wasi.Counter.Client.{
  request_failed, timeout, StoreConfig, path, increment, StreamResult, complete_read, dropped,
  Source, finish_response, on_status, collect_loop, collect_response, map_http_error, dns_timeout,
}
use leptos_wasi.Counter.Client.Send.{
  Setters, Wire, send_and_collect, write_body, await_transmission, operation, deadline,
  header_fields, timeout_nanos, target_of, set_options, set_request, prepare_request, written,
  collected, try_join, send_request, request, post,
}

abbrev demo : StoreConfig
demo = record { authority = codes "127.0.0.1:4040"; counter_id = codes "demo" }

abbrev willing : Setters
willing = record {
  from_list = λ fields. true;
  set_connect_timeout = λ nanos. true;
  set_first_byte_timeout = λ nanos. true;
  set_between_bytes_timeout = λ nanos. true;
  set_method = λ method. true;
  set_http_scheme = true;
  set_authority = λ authority. true;
  set_path_with_query = λ path_with_query. true;
}

abbrev next_chunk : List Bytes → (StreamResult × Bytes) × List Bytes
next_chunk [] = ((dropped, []), [])
next_chunk (c ∷ cs) = ((complete_read, c), cs)

abbrev chunked : Source (List Bytes)
chunked = record {
  read_chunk = next_chunk;
  trailers = λ s. ok tt;
  write_result = λ s. true;
  from_slice = λ bytes. some (length bytes);
}

abbrev answering : Wire (List Bytes)
answering = record {
  write_all = λ body. [];
  write_end = true;
  client_send = λ out. ok (200, codes "{\"value\"" ∷ codes ":7}" ∷ []);
  transmission_result = ok tt;
}

run : Unit {0}
unfolding header_fields timeout_nanos target_of set_options set_request prepare_request written
    collected try_join send_request request path to_string finish_response on_status collect_loop
    collect_response map_http_error
run = tt

prepares :
    prepare_request (λ id. some id) willing demo (increment (codes "op"))
    ≡ ok (record {
      method = post;
      authority = codes "127.0.0.1:4040";
      path_with_query = codes "/v1/counters/demo/increment";
      header_fields =
          (codes "accept", codes "application/json")
          ∷ (codes "content-length", codes "2")
          ∷ (codes "content-type", codes "application/json")
          ∷ [];
      timeout_nanos = 2000000000;
      body = codes "op";
    })
unfolding run
prepares = refl

sends :
    request answering chunked 10000 3
      (λ id. some id)
      willing
      (await_transmission ∷ write_body ∷ send_and_collect ∷ [])
      operation
      demo
      (increment (codes "op"))
    ≡ some (ok 11)
unfolding run
sends = refl

too_late :
    request answering chunked 10000 3
      (λ id. some id)
      willing
      (await_transmission ∷ write_body ∷ send_and_collect ∷ [])
      deadline
      demo
      (increment (codes "op"))
    ≡ some (err timeout)
unfolding run
too_late = refl

-- The first error is the one that is given.
first_error :
    send_request
      (record answering { client_send = λ out. err dns_timeout; write_end = false })
      chunked
      10000
      3
      (λ id. some id)
      willing
      (write_body ∷ send_and_collect ∷ [])
      demo
      (increment (codes "op"))
    ≡ some (err request_failed)
unfolding run
first_error = refl
