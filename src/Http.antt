-- ===== src/Http.antt =====
-- What the program uses of the http crate, behind an interface: header maps, header values, URIs, and
-- responses with a body that is at hand or streamed. A header map is a parameter with its documented
-- laws, which `Http.Listed` shows can be met.
pub mod Laws
pub mod Listed
use leptos_wasi.Prelude.{
  ℕ, ◌≡◌, ◌≢◌, ◌≤◌, Bool, true, false, not, ◌&&◌, List, [], ◌∷◌, ◌++◌, Option, none, some,
  if◌then◌else◌, in_range, is_empty,
}
use leptos_wasi.Std.Str.{Bytes, bytes_eq}
use leptos_wasi.Std.Codes.{codes}

-- `HeaderName`, in its lower-case spelling.
abbrev pub HeaderName : Type 0
HeaderName = Bytes

abbrev pub location : HeaderName
location = codes "location"

abbrev pub content_type : HeaderName
content_type = codes "content-type"

abbrev pub content_length : HeaderName
content_length = codes "content-length"

abbrev pub x_content_type_options : HeaderName
x_content_type_options = codes "x-content-type-options"

abbrev pub referer : HeaderName
referer = codes "referer"

abbrev pub accept : HeaderName
accept = codes "accept"

-- One step of `for (name, value) in headers`: an item without a name belongs to the last name.
unfoldable pub named :
    {Value : Type 0}
    → Option HeaderName
    → List (Option HeaderName × Value)
    → List (HeaderName × Value)
named current [] = []
named current ((some name, value) ∷ items) = (name, value) ∷ named (some name) items
named none ((none, value) ∷ items) = named none items
named (some name) ((none, value) ∷ items) = (name, value) ∷ named (some name) items

unfoldable pub values_of : {Value : Type 0} → HeaderName → List (HeaderName × Value) → List Value
values_of name [] = []
values_of name ((n, value) ∷ entries) =
    let rest = values_of name entries in if bytes_eq name n then value ∷ rest else rest

-- `HeaderMap` and `HeaderValue`: `text` is `HeaderValue::from_static`, `number` is
-- `HeaderValue::from(usize)`. `path_and_query` is that of a text that parses as a `Uri`, and `guess`
-- is the value of `MimeGuess::from_path(path).first_or_octet_stream()`.
pub record Http (H Value : Type 0) : Type 0 where
  pub empty : H
  pub get_all : HeaderName → H → List Value
  pub insert : HeaderName → Value → H → H
  pub append : HeaderName → Value → H → H
  pub into_iter : H → List (Option HeaderName × Value)
  pub text : Bytes → Value
  pub number : ℕ → Value
  pub to_str : Value → Option Bytes
  pub from_str : Bytes → Option Value
  pub path_and_query : Bytes → Option Bytes
  pub guess : Bytes → Value

-- The documented behaviour that the theorems rely on.
pub record IsLawful {H Value : Type 0} (http : Http H Value) : Type 0 where
  pub get_all-empty : (name : HeaderName) → http.get_all name http.empty ≡ []
  pub get_all-insert :
      (name n : HeaderName) (value : Value) (headers : H)
      → http.get_all name (http.insert n value headers)
        ≡ (if bytes_eq name n then value ∷ [] else http.get_all name headers)
  pub get_all-append :
      (name n : HeaderName) (value : Value) (headers : H)
      → http.get_all name (http.append n value headers) ≡ (
          if bytes_eq name n
          then http.get_all name headers ++ value ∷ []
          else http.get_all name headers)
  pub get_all-into_iter :
      (name : HeaderName) (headers : H)
      → values_of name (named none (http.into_iter headers)) ≡ http.get_all name headers
  pub from_str-to_str :
      (text : Bytes) (value : Value)
      → http.from_str text ≡ some value
      → http.to_str value ≡ some text
  pub text-to_str : http.to_str (http.text (codes "/")) ≡ some (codes "/")

-- `headers.get(name)` and `headers.contains_key(name)`.
abbrev pub first : {A : Type 0} → List A → Option A
first [] = none
first (x ∷ xs) = some x

abbrev pub get : {H Value : Type 0} → Http H Value → HeaderName → H → Option Value
get http name headers = first (http.get_all name headers)

abbrev pub contains_key : {H Value : Type 0} → Http H Value → HeaderName → H → Bool
contains_key http name headers = not (is_empty (http.get_all name headers))

-- `if !headers.contains_key(name) { headers.insert(name, value); }`.
unfoldable pub insert_if_absent : {H Value : Type 0} → Http H Value → HeaderName → Value → H → H
insert_if_absent http name value headers =
    if not (contains_key http name headers) then http.insert name value headers else headers

abbrev pub is_success : ℕ → Bool
is_success = in_range 200 299

abbrev pub is_redirection : ℕ → Bool
is_redirection = in_range 300 399

-- src/response.rs: `Body`; the streams are a parameter.
pub data Body (Stream : Type 0) : Type 0 where
  sync : Bytes → Body Stream
  async : Stream → Body Stream

-- `http::Response<Body>`.
pub record Response (H Stream : Type 0) : Type 0 where
  pub status : ℕ
  pub headers : H
  pub body : Body Stream
