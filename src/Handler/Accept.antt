-- ===== src/Handler/Accept.antt =====
-- src/handler/http_util.rs: `accepts_html`, and the test for an islands navigation. `str::parse::<f32>`
-- is a parameter, and so is the test whether a quality is above zero.
pub mod Combined
mod Tests
use leptos_wasi.Prelude.{
  Bool, true, false, ◌&&◌, ◌||◌, List, [], ◌∷◌, ◌++◌, Option, none, some, if◌then◌else◌, any,
}
use leptos_wasi.Std.Str.{Bytes, bytes_eq, split, trim, strip_prefix}
use leptos_wasi.Std.Codes.{codes}
use leptos_wasi.Http.{Http, HeaderName, accept, contains_key}

-- `quality > 0.0`, where a quality that is absent is 1.0.
abbrev pub is_positive : {F : Type 0} → (F → Bool) → Option F → Bool
is_positive positive none = true
is_positive positive (some quality) = positive quality

abbrev pub is_html : Bytes → Bool
is_html media_type =
    bytes_eq media_type (codes "text/html") || bytes_eq media_type (codes "application/xhtml+xml")

-- The media ranges of the values that are text.
unfoldable pub media_ranges : List (Option Bytes) → List Bytes
media_ranges [] = []
media_ranges (none ∷ values) = media_ranges values
media_ranges (some text ∷ values) = split b',' text ++ media_ranges values

abbrev texts : {H Value : Type 0} → Http H Value → List Value → List (Option Bytes)
texts types [] = []
texts types (v ∷ vs) = types.to_str v ∷ texts types vs

module _ {F : Type 0} (parse_f32 : Bytes → Option F) (positive : F → Bool) where
  unfoldable pub parse_quality : Option Bytes → Option F
  parse_quality none = none
  parse_quality (some value) = parse_f32 value

  abbrev or_rest : Option F → Option F → Option F
  or_rest none rest = rest
  or_rest (some quality) rest = some quality

  -- `filter_map(strip_prefix("q=")).find_map(parse)`.
  unfoldable pub find_quality : List Bytes → Option F
  find_quality [] = none
  find_quality (field ∷ fields) =
      or_rest (parse_quality (strip_prefix (codes "q=") (trim field))) (find_quality fields)

  -- The closure of `any`, on the fields of a media range.
  unfoldable pub fields_accept : List Bytes → Bool
  fields_accept [] = false
  fields_accept (media_type ∷ fields) =
      is_positive positive (find_quality fields) && is_html (trim media_type)

  unfoldable pub range_accepts : Bytes → Bool
  range_accepts media_range = fields_accept (split b';' media_range)

  -- `accepts_html` on the values of the `Accept` headers, each with its text if it is one.
  unfoldable pub texts_accept : List (Option Bytes) → Bool
  texts_accept values = any range_accepts (media_ranges values)

  unfoldable pub accepts_html : {H Value : Type 0} → Http H Value → H → Bool
  accepts_html types headers = texts_accept (texts types (types.get_all accept headers))

abbrev pub islands_router_header : HeaderName
islands_router_header = codes "islands-router"

-- `is_islands_router_navigation`; `feature` is `cfg!(feature = "islands-router")`.
unfoldable pub is_islands_router_navigation : {H Value : Type 0} → Bool → Http H Value → H → Bool
is_islands_router_navigation feature types headers =
    feature && contains_key types islands_router_header headers
