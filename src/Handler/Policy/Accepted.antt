-- ===== src/Handler/Policy/Accepted.antt =====
-- Which Content-Length headers are accepted, and as what.
use leptos_wasi.Prelude.{
  ℕ, ◌≤◌, ◌<◌, ◌≡◌, ◌≢◌, ◌^◌, refl, ap, subst, sym, ◌∙◌, true, false, not, List, [], ◌∷◌, Option,
  none, some, ok, ok_or, bind-eq-ok, ◌==◌, all, is_empty, All, arith, Option-cases, inl, inr, ◌↔◌,
  ◌⊎◌,
}
use leptos_wasi.Std.Str.{Bytes, split, trim, is_ascii_digit, decimal_from, parse_u64}
use leptos_wasi.Std.Str.Laws.{split-ne-nil}
use leptos_wasi.Handler.Policy.{
  invalid_content_length, is_some_and, read_length, read_parts, check_limit, read_values,
  validate_content_length,
}

-- A part that denotes `n`: digits, at least one, between optional spaces, and within 64 bits.
pub record IsLength (n : ℕ) (part : Bytes) : Type 0 where
  digits : all is_ascii_digit (trim part) ≡ true
  some_digit : is_empty (trim part) ≡ false
  denotes : decimal_from 0 (trim part) ≡ n
  fits : n < 2 ^ 64

-- What the parts so far say, and the next ones agree with.
Agrees : Option ℕ → ℕ → Type 0
Agrees none n = Unit
Agrees (some m) n = m ≡ n

parse_u64_inv : (s : Bytes) (n : ℕ) → parse_u64 s ≡ some n → (decimal_from 0 s ≡ n) × (n < 2 ^ 64)
unfolding parse_u64
parse_u64_inv s n h = ground arith

-- What a part that passes its checks has passed.
record Passed (parsed r : Option ℕ) (value : Bytes) : Type 0 where
  nonempty : is_empty value ≡ false
  all_digits : all is_ascii_digit value ≡ true
  length : ℕ
  parses : parse_u64 value ≡ some length
  consistent : is_some_and (λ previous. not (previous == length)) parsed ≡ false
  result : r ≡ some length

read_length-Passed :
    (parsed r : Option ℕ) (value : Bytes) → read_length parsed value ≡ ok r → Passed parsed r value
unfolding read_length
read_length-Passed parsed r value h = elim (Option-cases (parse_u64 value)) [
  | inl e ↦ absurd (ground arith)
  | inr (n, e) ↦ record {
    nonempty = ground arith;
    all_digits = ground arith;
    length = n;
    parses = e;
    consistent = ground arith;
    result = ground arith;
  }
]

Agrees-of_test :
    (parsed : Option ℕ) (n : ℕ)
    → is_some_and (λ previous. not (previous == n)) parsed ≡ false
    → Agrees parsed n
unfolding Agrees
Agrees-of_test none n h = tt
Agrees-of_test (some m) n h = ground arith

test-of_Agrees :
    (parsed : Option ℕ) (n : ℕ)
    → Agrees parsed n
    → is_some_and (λ previous. not (previous == n)) parsed ≡ false
unfolding Agrees
test-of_Agrees none n h = refl
test-of_Agrees (some m) n h = ground arith

read_length_inv :
    (parsed r : Option ℕ) (part : Bytes)
    → read_length parsed (trim part) ≡ ok r
    → (n : ℕ) × (r ≡ some n) × IsLength n part × Agrees parsed n
read_length_inv parsed r part h =
    let p = read_length-Passed parsed r (trim part) h in
    let (d, f) = parse_u64_inv (trim part) p.length p.parses in
    (
      p.length,
      p.result,
      record { digits = p.all_digits; some_digit = p.nonempty; denotes = d; fits = f },
      Agrees-of_test parsed p.length p.consistent,
    )

parse_u64_lem : (s : Bytes) (n : ℕ) → decimal_from 0 s ≡ n → n < 2 ^ 64 → parse_u64 s ≡ some n
unfolding parse_u64
parse_u64_lem s n d f = ground arith

read_length_ok :
    (parsed : Option ℕ) (n : ℕ) (part : Bytes)
    → IsLength n part
    → Agrees parsed n
    → read_length parsed (trim part) ≡ ok (some n)
unfolding read_length
read_length_ok parsed n part h k =
    rw
      (
        read_length,
        h.some_digit,
        h.digits,
        parse_u64_lem (trim part) n h.denotes h.fits,
        test-of_Agrees parsed n k,
      )
      refl

-- Once a length is known, all further parts denote it.
read_parts-some :
    (m : ℕ) (r : Option ℕ) (parts : List Bytes)
    → read_parts (some m) parts ≡ ok r
    → (r ≡ some m) × All (IsLength m) parts
unfolding read_parts Agrees
read_parts-some m r [] h = (cc, tt)
read_parts-some m r (part ∷ parts) h =
    let (r', first, rest) = bind-eq-ok (read_length (some m) (trim part)) _ h in
    let (n, e, d, a) = read_length_inv (some m) r' part first in
    let (e', ds) =
      read_parts-some m r parts
        (subst (λ x. read_parts x parts ≡ ok r) (e ∙ ap some (sym a)) rest) in
    (e', (subst (λ x. IsLength x part) (sym a) d, ds))

read_parts-none :
    (r : Option ℕ) (parts : List Bytes)
    → parts ≢ []
    → read_parts none parts ≡ ok r
    → (n : ℕ) × (r ≡ some n) × All (IsLength n) parts
unfolding read_parts
read_parts-none r [] k h = absurd (k refl)
read_parts-none r (part ∷ parts) k h =
    let (r', first, rest) = bind-eq-ok (read_length none (trim part)) _ h in
    let (n, e, d, a) = read_length_inv none r' part first in
    let (e', ds) = read_parts-some n r parts (subst (λ x. read_parts x parts ≡ ok r) e rest) in
    (n, e', (d, ds))

read_parts_ok :
    (parsed : Option ℕ) (n : ℕ) (parts : List Bytes)
    → Agrees parsed n
    → All (IsLength n) parts
    → (parsed ≡ some n) ⊎ (parts ≢ [])
    → read_parts parsed parts ≡ ok (some n)
unfolding read_parts Agrees
read_parts_ok parsed n [] k h (inl e) = ap ok e
read_parts_ok parsed n [] k h (inr e) = absurd (e refl)
read_parts_ok parsed n (part ∷ parts) k h e =
    rw (read_length_ok parsed n part h.0 k) (read_parts_ok (some n) n parts refl h.1 (inl refl))

module _ {Value : Type 0} (to_str : Value → Option Bytes) where
  -- Every part between commas of this value denotes `n`.
  unfoldable pub Declares : ℕ → Value → Type 0
  Declares n value =
      (text : Bytes) × (to_str value ≡ some text) × All (IsLength n) (split b',' text)

  ok_or_inv :
      (value : Value) (text : Bytes)
      → ok_or invalid_content_length (to_str value) ≡ ok text
      → to_str value ≡ some text
  ok_or_inv value text h = elim (Option-cases (to_str value)) [
    | inl e ↦ absurd (ground arith)
    | inr (t, e) ↦ ground arith
  ]

  read_values-some :
      (m : ℕ) (r : Option ℕ) (values : List Value)
      → read_values to_str (some m) values ≡ ok r
      → (r ≡ some m) × All (Declares m) values
  unfolding read_values Declares
  read_values-some m r [] h = (cc, tt)
  read_values-some m r (value ∷ values) h =
      let (text, t, h') = bind-eq-ok (ok_or invalid_content_length (to_str value)) _ h in
      let (r', first, rest) = bind-eq-ok (read_parts (some m) (split b',' text)) _ h' in
      let (e, ds) = read_parts-some m r' (split b',' text) first in
      let (e', dss) =
        read_values-some m r values (subst (λ x. read_values to_str x values ≡ ok r) e rest) in
      (e', ((text, ok_or_inv value text t, ds), dss))

  read_values-none :
      (r : Option ℕ) (value : Value) (values : List Value)
      → read_values to_str none (value ∷ values) ≡ ok r
      → (n : ℕ) × (r ≡ some n) × All (Declares n) (value ∷ values)
  unfolding read_values Declares
  read_values-none r value values h =
      let (text, t, h') = bind-eq-ok (ok_or invalid_content_length (to_str value)) _ h in
      let (r', first, rest) = bind-eq-ok (read_parts none (split b',' text)) _ h' in
      let (n, e, ds) = read_parts-none r' (split b',' text) (split-ne-nil b',' text) first in
      let (e', dss) =
        read_values-some n r values (subst (λ x. read_values to_str x values ≡ ok r) e rest) in
      (n, e', ((text, ok_or_inv value text t, ds), dss))

  read_values_ok :
      (parsed : Option ℕ) (n : ℕ) (values : List Value)
      → Agrees parsed n
      → All (Declares n) values
      → (parsed ≡ some n) ⊎ (values ≢ [])
      → read_values to_str parsed values ≡ ok (some n)
  unfolding read_values Agrees Declares
  read_values_ok parsed n [] k h (inl e) = ap ok e
  read_values_ok parsed n [] k h (inr e) = absurd (e refl)
  read_values_ok parsed n (value ∷ values) k h e =
      let (text, t, ds) = h.0 in
      rw (t, read_parts_ok parsed n (split b',' text) k ds (inr (split-ne-nil b',' text)))
        (read_values_ok (some n) n values refl h.1 (inl refl))

  -- A request with a Content-Length is accepted, with the length `n`, exactly when every value of
  -- the header is text, every part of it between commas is a decimal number that denotes `n` and
  -- fits 64 bits, and `n` is within the limit, a `usize`.
  pub validate_content_length_iff :
      (usize_max limit n : ℕ) (value : Value) (values : List Value)
      → limit ≤ usize_max
      → (validate_content_length to_str usize_max (value ∷ values) limit ≡ ok (some n))
        ↔ (All (Declares n) (value ∷ values) × (n ≤ limit))
  unfolding validate_content_length
  validate_content_length_iff usize_max limit n value values k = (
    λ h.
        let (r, reads, checks) = bind-eq-ok (read_values to_str none (value ∷ values)) _ h in
        let (m, e, ds) = read_values-none r value values reads in
        let (b, same) =
          check_limit_inv usize_max limit m n k
            (subst (λ x. check_limit usize_max limit x ≡ ok (some n)) e checks) in
        (subst (λ x. All (Declares x) (value ∷ values)) same ds, b),
    λ (ds, b).
        rw (read_values_ok none n (value ∷ values) (unfold Agrees in tt) ds (inr λ e. cc))
          (check_limit_ok usize_max limit n k b),
  )
    where
      check_limit_inv :
          (u l m n : ℕ) → l ≤ u → check_limit u l (some m) ≡ ok (some n) → (n ≤ l) × (m ≡ n)
      check_limit_inv u l m n k h = unfold check_limit in ground arith

      check_limit_ok : (u l n : ℕ) → l ≤ u → n ≤ l → check_limit u l (some n) ≡ ok (some n)
      check_limit_ok u l n k b = unfold check_limit in ground arith
