-- ===== src/Http/Listed.antt =====
-- A header map as the list of its entries, with texts as values: it meets the laws.
use leptos_wasi.Prelude.{
  ◌≡◌, refl, sym, List, [], ◌∷◌, ◌++◌, Option, none, some, if◌then◌else◌, arith,
}
use leptos_wasi.Std.Str.{Bytes, bytes_eq, starts_with}
use leptos_wasi.Std.Str.Laws.{bytes_eq_iff}
use leptos_wasi.Std.Codes.{codes}
use leptos_wasi.Http.{HeaderName, Http, IsLawful, named, values_of}

abbrev pub Headers : Type 0
Headers = List (HeaderName × Bytes)

unfoldable pub remove : HeaderName → Headers → Headers
remove name [] = []
remove name (e ∷ es) = let rest = remove name es in if bytes_eq name e.0 then rest else e ∷ rest

unfoldable pub items : Headers → List (Option HeaderName × Bytes)
items [] = []
items (e ∷ es) = (some e.0, e.1) ∷ items es

abbrev pub listed : Http Headers Bytes
listed = record {
  empty = [];
  get_all = values_of;
  insert = λ name value headers. remove name headers ++ ((name, value) ∷ []);
  append = λ name value headers. headers ++ ((name, value) ∷ []);
  into_iter = items;
  text = λ s. s;
  number = λ n. n ∷ [];
  to_str = some;
  from_str = some;
  path_and_query =
      λ s. (if starts_with (codes "https:") s then some (codes "/take-over") else some s);
  guess = λ s. codes "application/octet-stream";
}

values_of-concat :
    (name n : HeaderName) (value : Bytes) (headers : Headers)
    → values_of name (headers ++ ((n, value) ∷ []))
      ≡ (if bytes_eq name n then values_of name headers ++ value ∷ [] else values_of name headers)
unfolding values_of
values_of-concat name n value [] = ground arith
values_of-concat name n value (e ∷ es) = ground (arith, values_of-concat name n value es)

values_of-remove :
    (name n : HeaderName) (headers : Headers)
    → values_of name (remove n headers) ≡ (if bytes_eq name n then [] else values_of name headers)
unfolding values_of remove
values_of-remove name n [] = ground arith
values_of-remove name n ((m, v) ∷ es) =
    ground (
      arith,
      values_of-remove name n es,
      bytes_eq_iff name n,
      bytes_eq_iff n m,
      bytes_eq_iff name m,
    )

values_of-items :
    (name : HeaderName) (current : Option HeaderName) (headers : Headers)
    → values_of name (named current (items headers)) ≡ values_of name headers
unfolding values_of items named
values_of-items name current [] = refl
values_of-items name none ((n, v) ∷ es) = rw (values_of-items name (some n) es) refl
values_of-items name (some m) ((n, v) ∷ es) = rw (values_of-items name (some n) es) refl

from_str-to_str_lem : (text value : Bytes) → some text ≡ some value → some value ≡ some text
from_str-to_str_lem text value h = sym h

get_all-insert_lem :
    (name n : HeaderName) (value : Bytes) (headers : Headers)
    → values_of name (remove n headers ++ ((n, value) ∷ []))
      ≡ (if bytes_eq name n then value ∷ [] else values_of name headers)
get_all-insert_lem name n value headers =
    ground
      (arith, values_of-concat name n value (remove n headers), values_of-remove name n headers)

get_all-empty_lem : (name : HeaderName) → values_of {Value = Bytes} name [] ≡ []
unfolding values_of
get_all-empty_lem name = refl

pub listed-IsLawful : IsLawful listed
listed-IsLawful = record {
  get_all-empty = get_all-empty_lem;
  get_all-insert = get_all-insert_lem;
  get_all-append = values_of-concat;
  get_all-into_iter = λ name headers. values_of-items name none headers;
  from_str-to_str = from_str-to_str_lem;
  text-to_str = refl;
}
