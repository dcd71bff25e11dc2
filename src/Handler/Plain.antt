-- ===== src/Handler/Plain.antt =====
-- src/handler/policy.rs: the responses that the crate makes itself, and the default against content
-- sniffing.
use leptos_wasi.Prelude.{ℕ}
use leptos_wasi.Std.Str.{Bytes}
use leptos_wasi.Std.Codes.{codes}
use leptos_wasi.Http.{Http, Response, sync, content_type, x_content_type_options, insert_if_absent}

module _ {H Value : Type 0} (types : Http H Value) where
  unfoldable pub plain_response : {Stream : Type 0} → ℕ → Bytes → Response H Stream
  plain_response status message = record {
    status = status;
    headers =
        types.insert content_type (types.text (codes "text/plain; charset=utf-8")) types.empty;
    body = sync message;
  }

  unfoldable pub set_default_nosniff : {Stream : Type 0} → Response H Stream → Response H Stream
  set_default_nosniff response = record response {
    headers =
        insert_if_absent types x_content_type_options (types.text (codes "nosniff"))
          response.headers;
  }
