-- ===== src/Std/Decimal.antt =====
-- `u64::to_string`: a number in decimal digits.
use leptos_wasi.Prelude.{
  ℕ, zero, suc, ◌+◌, ◌-◌, ◌*◌, ◌/◌, ◌%◌, ◌<◌, ◌^◌, ◌≡◌, refl, [], ◌∷◌, ◌++◌, some, arith,
  if◌then◌else◌, ltb, Bool-cases, inl, inr,
}
use leptos_wasi.Std.Str.{Bytes, decimal_from, parse_u64}

-- With more fuel than the number, which is more than its digits.
digits : ℕ → ℕ → Bytes
digits zero n = []
digits (suc fuel) n =
    let front = digits fuel (n / 10) in
    if ltb n 10 then (b'0' + n) ∷ [] else front ++ (b'0' + n % 10) ∷ []

unfoldable pub to_string : ℕ → Bytes
unfolding digits
to_string n = digits (suc n) n

decimal_from-concat :
    (m c : ℕ) (s : Bytes) → decimal_from m (s ++ c ∷ []) ≡ decimal_from m s * 10 + (c - b'0')
unfolding decimal_from
decimal_from-concat m c [] = refl
decimal_from-concat m c (d ∷ s) = decimal_from-concat (m * 10 + (d - b'0')) c s

decimal_from-digits : (fuel n : ℕ) → n < fuel → decimal_from 0 (digits fuel n) ≡ n
unfolding digits
decimal_from-digits zero n h = absurd (omega arith)
decimal_from-digits (suc fuel) n h = elim (Bool-cases (ltb n 10)) [
  | inl e ↦ rw e (unfold decimal_from in omega arith)
  | inr e ↦
      let front = decimal_from-digits fuel (n / 10) (ground arith) in
      rw (e, decimal_from-concat 0 (b'0' + n % 10) (digits fuel (n / 10)), front) (omega arith)
]

-- A number that is printed and parsed again is the number, within the bounds of the parser.
pub parse_u64-to_string : (n : ℕ) → n < 2 ^ 64 → parse_u64 (to_string n) ≡ some n
unfolding parse_u64 to_string
parse_u64-to_string n h = rw (decimal_from-digits (suc n) n (omega arith)) (ground arith)
