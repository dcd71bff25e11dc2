-- ===== src/Counter/Client/Send/Declared.antt =====
-- The length that an outgoing request declares.
use leptos_wasi.Prelude.{◌<◌, ◌^◌, ◌≡◌, refl, ap, ◌∙◌, [], ◌∷◌, Option, some, ok, arith, length}
use leptos_wasi.Std.Str.{Bytes, bytes_eq, parse_u64}
use leptos_wasi.Std.Codes.{codes}
use leptos_wasi.Std.Decimal.{to_string, parse_u64-to_string}
use leptos_wasi.Counter.Client.{StoreConfig, RequestKind, values_named}
use leptos_wasi.Counter.Client.Send.{
  Setters, Outgoing, header_fields, timeout_nanos, prepare_request,
}

-- The one declared length of a request is that of its body.
record IsDeclared (out : Outgoing) : Type 0 where
  pub value : Bytes
  pub once : values_named (codes "content-length") out.header_fields ≡ value ∷ []
  pub parsed : length out.body < 2 ^ 64 → parse_u64 value ≡ some (length out.body)

values_named-header_fields :
    (body : Bytes)
    → values_named (codes "content-length") (header_fields body) ≡ to_string (length body) ∷ []
unfolding values_named header_fields bytes_eq
values_named-header_fields [] = refl
values_named-header_fields (c ∷ body) = refl

prepare_request_fields :
    (to_vec : Bytes → Option Bytes) (host : Setters) (config : StoreConfig) (kind : RequestKind)
    (out : Outgoing)
    → prepare_request to_vec host config kind ≡ ok out
    → out.header_fields ≡ header_fields out.body
unfolding prepare_request timeout_nanos
prepare_request_fields to_vec host config kind out h = ground arith

-- What `prepare_request` answers, where it answers a request at all, declares its length.
prepare_request-IsDeclared :
    (to_vec : Bytes → Option Bytes) (host : Setters) (config : StoreConfig) (kind : RequestKind)
    (out : Outgoing)
    → prepare_request to_vec host config kind ≡ ok out
    → IsDeclared out
prepare_request-IsDeclared to_vec host config kind out h =
    let fields = prepare_request_fields to_vec host config kind out h in
    record {
      value = to_string (length out.body);
      once =
          ap (values_named (codes "content-length")) fields ∙ values_named-header_fields out.body;
      parsed = parse_u64-to_string (length out.body);
    }
