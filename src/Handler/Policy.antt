-- ===== src/Handler/Policy.antt =====
-- src/handler/policy.rs: the request budgets, their errors, and the declared length of a body.
-- A `HeaderValue` is a type parameter; `to_str` is its view as text. `usize_max` is the largest
-- `usize` of the target.
pub mod Accepted
mod Tests
use leptos_wasi.Prelude.{
  ℕ, ◌*◌, ◌^◌, ◌-◌, Bool, true, false, not, ◌||◌, List, [], ◌∷◌, Option, none, some, Result, ok,
  err, ◌>>=◌, ◌>>◌, ok_or, if◌then◌else◌, ltb, leb, ◌==◌, all, is_empty, min,
}
use leptos_wasi.Std.Str.{Bytes, split, trim, is_ascii_digit, parse_u64}

abbrev pub default_max_request_body_size : ℕ
default_max_request_body_size = 16 * 1024 * 1024

pub record HandlerConfig : Type 0 where
  pub max_request_body_size : ℕ
  pub request_body_timeout_ns : Option ℕ

unfoldable pub with_max_request_body_size : HandlerConfig → ℕ → HandlerConfig
with_max_request_body_size self bytes = record self { max_request_body_size = bytes }

unfoldable pub with_request_body_timeout_ns : HandlerConfig → ℕ → HandlerConfig
with_request_body_timeout_ns self nanoseconds = record self {
  request_body_timeout_ns = some nanoseconds;
}

-- A `Duration` is its nanoseconds, as `as_nanos` gives them.
unfoldable pub with_request_body_timeout : HandlerConfig → ℕ → HandlerConfig
with_request_body_timeout self timeout =
    with_request_body_timeout_ns self (if ltb timeout (2 ^ 64) then timeout else 2 ^ 64 - 1)

unfoldable pub default : HandlerConfig
default = record {
  max_request_body_size = default_max_request_body_size;
  request_body_timeout_ns = none;
}

pub data RequestPolicyError : Type 0 where
  invalid_content_length conflicting_content_length : RequestPolicyError
  body_too_large : ℕ → RequestPolicyError
  body_read_timeout : ℕ → RequestPolicyError

unfoldable pub status : RequestPolicyError → ℕ
status (body_too_large limit) = 413
status (body_read_timeout nanoseconds) = 408
status invalid_content_length = 400
status conflicting_content_length = 400

-- `parsed.is_some_and(test)`.
abbrev pub is_some_and : (ℕ → Bool) → Option ℕ → Bool
is_some_and test none = false
is_some_and test (some a) = test a

-- The body of the inner loop, on a trimmed value.
unfoldable pub read_length : Option ℕ → Bytes → Result (Option ℕ) RequestPolicyError
read_length parsed value =
    if is_empty value || not (all is_ascii_digit value)
    then err invalid_content_length
    else (ok_or invalid_content_length (parse_u64 value) >>= λ length.
        if is_some_and (λ previous. not (previous == length)) parsed
        then err conflicting_content_length
        else ok (some length))

-- The inner loop, over the parts between commas.
unfoldable pub read_parts : Option ℕ → List Bytes → Result (Option ℕ) RequestPolicyError
read_parts parsed [] = ok parsed
read_parts parsed (value ∷ values) =
    read_length parsed (trim value) >>= λ parsed'. read_parts parsed' values

-- Behind the two loops.
unfoldable pub check_limit : ℕ → ℕ → Option ℕ → Result (Option ℕ) RequestPolicyError
check_limit usize_max limit none = ok none
check_limit usize_max limit (some length) =
    if ltb limit length
    then err (body_too_large limit)
    else ok (some (if leb length usize_max then length else limit))

module _ {Value : Type 0} (to_str : Value → Option Bytes) where
  -- The outer loop, over the values of the header.
  unfoldable pub read_values : Option ℕ → List Value → Result (Option ℕ) RequestPolicyError
  read_values parsed [] = ok parsed
  read_values parsed (value ∷ values) = ok_or invalid_content_length (to_str value) >>= λ text.
      read_parts parsed (split b',' text) >>= λ parsed'. read_values parsed' values

  -- `validate_content_length`; the values are those of `headers.get_all(CONTENT_LENGTH)`.
  unfoldable pub validate_content_length : ℕ → List Value → ℕ → Result (Option ℕ) RequestPolicyError
  validate_content_length usize_max values limit =
      read_values none values >>= check_limit usize_max limit
