-- ===== src/Handler/Wasip2/Written.antt =====
-- `write_all` writes every byte once and in order, or fails with the rest unwritten.
use leptos_wasi.Prelude.{
  ℕ, zero, suc, ◌+◌, ◌-◌, ◌≤◌, ◌<◌, ◌≡◌, refl, ap, sym, ◌∙◌, true, false, List, [], ◌∷◌, ◌++◌,
  Option, some, Result, ok, err, ◌==◌, is_empty, length, take, drop, take-append-drop, arith,
  Bool-cases, inl, inr, ==_iff,
}
use mathlib.Core.List.{append-nil, append_assoc}
use leptos_wasi.Std.Str.{Bytes}
use leptos_wasi.Handler.Wasip2.{
  Output, Writing, Step, fail, next, on_wait, on_write, chunk, on_capacity, after_step, write_all,
}

-- What the loop relies on: `written` are the bytes that the stream has taken, and `rank` bounds how
-- often it will still ask the writer to wait. A failed write takes nothing.
pub record IsSink {S E : Type 0} (output : Output S E) (written : S → Bytes) (rank : S → ℕ)
    : Type 0 where
  pub check_keeps : (s : S) → written (output.check_write s).1 ≡ written s
  pub check_rank : (s : S) → rank (output.check_write s).1 ≤ rank s
  pub wait_keeps : (s : S) → written (output.wait s).1 ≡ written s
  pub wait_rank :
      (s : S)
      → (output.check_write s).0 ≡ ok 0
      → rank (output.wait (output.check_write s).1).1 < rank s
  pub write_ok :
      (b : Bytes) (s : S)
      → (output.write b s).0 ≡ ok tt
      → written (output.write b s).1 ≡ written s ++ b
  pub write_err :
      (b : Bytes) (s : S) (e : E)
      → (output.write b s).0 ≡ err e
      → written (output.write b s).1 ≡ written s
  pub write_rank : (b : Bytes) (s : S) → rank (output.write b s).1 ≤ rank s

length-drop : {A : Type 0} (n : ℕ) (xs : List A) → length (drop n xs) ≡ length xs - n
length-drop zero xs = omega arith
length-drop (suc n) [] = omega arith
length-drop (suc n) (x ∷ xs) = omega (arith, length-drop n xs)

module _ {S E : Type 0} (output : Output S E) (u : ℕ) (written : S → Bytes) (rank : S → ℕ)
    (sink : IsSink output written rank) (u_pos : 0 < u) where
  -- What is written and what is left, one behind the other.
  total : Writing S → Bytes
  total w = written w.host ++ w.bytes

  rounds_left : Writing S → ℕ
  rounds_left w = length w.bytes + rank w.host

  Goes : Writing S → Step S E → Type 0
  Goes w (fail e w') = total w' ≡ total w
  Goes w (next w') = (total w' ≡ total w) × (rounds_left w' < rounds_left w)

  on_wait-Goes :
      (w : Writing S) (host : S) (answer : Result (Unit {0}) E × S)
      → written answer.1 ≡ written w.host
      → rank answer.1 < rank w.host
      → Goes w (on_wait output u (record w { host = host }) answer)
  unfolding on_wait Goes total rounds_left
  on_wait-Goes w host (err e, s) h k = ap (λ x. x ++ w.bytes) h
  on_wait-Goes w host (ok _, s) h k = (ap (λ x. x ++ w.bytes) h, omega arith)

  on_write-Goes :
      (w : Writing S) (host : S) (n : ℕ) (answer : Result (Unit {0}) E × S)
      → (answer.0 ≡ ok tt → written answer.1 ≡ written w.host ++ take n w.bytes)
      → ((e : E) → answer.0 ≡ err e → written answer.1 ≡ written w.host)
      → rank answer.1 ≤ rank w.host
      → 0 < n
      → n ≤ length w.bytes
      → Goes w (on_write output u n (record w { host = host }) answer)
  unfolding on_write Goes total rounds_left
  on_write-Goes w host n (err e, s) good bad k p b = ap (λ x. x ++ w.bytes) (bad e refl)
  on_write-Goes w host n (ok tt, s) good bad k p b = (
    ap (λ x. x ++ drop n w.bytes) (good refl)
        ∙ append_assoc (written w.host) (take n w.bytes) (drop n w.bytes)
        ∙ ap (λ x. written w.host ++ x) (take-append-drop n w.bytes),
    omega (arith, length-drop n w.bytes),
  )

  chunk_bounds :
      (capacity : ℕ) (bytes : Bytes)
      → (capacity == 0) ≡ false
      → is_empty bytes ≡ false
      → (0 < chunk output u capacity bytes) × (chunk output u capacity bytes ≤ length bytes)
  unfolding chunk
  chunk_bounds capacity [] h k = absurd cc
  chunk_bounds capacity (b ∷ bs) h k = ground arith

  on_capacity-Goes :
      (w : Writing S) (answer : Result ℕ E × S)
      → output.check_write w.host ≡ answer
      → is_empty w.bytes ≡ false
      → Goes w (on_capacity output u w answer)
  unfolding on_capacity
  on_capacity-Goes w (err e, s) h k =
      unfold Goes in (unfold total in ap (λ x. x ++ w.bytes) (rw h at (sink.check_keeps w.host)))
  on_capacity-Goes w (ok capacity, s) h k = elim (Bool-cases (capacity == 0)) [
    | inl z ↦ rw z (
        on_wait-Goes w s (output.wait s) (sink.wait_keeps s ∙ kept)
          (rw h at (sink.wait_rank w.host (rw h (ap ok ((==_iff capacity 0).0 z))))))
    | inr z ↦
        let (p, b) = chunk_bounds capacity w.bytes z k in
        rw z (
          on_write-Goes w s (chunk output u capacity w.bytes)
            (output.write (take (chunk output u capacity w.bytes) w.bytes) s)
            (λ good.
              sink.write_ok _ s good
              ∙ ap (λ x. x ++ take (chunk output u capacity w.bytes) w.bytes) kept)
            (λ e bad. sink.write_err _ s e bad ∙ kept)
            (omega (
              arith,
              sink.write_rank (take (chunk output u capacity w.bytes) w.bytes) s,
              rank_kept,
            ))
            p b)
  ]
    where
      kept : written s ≡ written w.host
      kept = rw h at (sink.check_keeps w.host)

      rank_kept : rank s ≤ rank w.host
      rank_kept = rw h at (sink.check_rank w.host)

  -- How writing ends: everything is written, or it fails with the rest still to be written.
  pub data IsWritten (w : Writing S) : Result (Unit {0}) E × Writing S → Type 0 where
    all_written :
        (w' : Writing S) → written w'.host ≡ written w.host ++ w.bytes → IsWritten w (ok tt, w')
    failed :
        (e : E) (w' : Writing S)
        → written w'.host ++ w'.bytes ≡ written w.host ++ w.bytes
        → IsWritten w (err e, w')

  IsWritten-earlier :
      (w w' : Writing S) (x : Result (Unit {0}) E × Writing S)
      → total w' ≡ total w
      → IsWritten w' x
      → IsWritten w x
  unfolding total
  IsWritten-earlier w w' x h (all_written w'' e) = all_written w'' (e ∙ h)
  IsWritten-earlier w w' x h (failed e w'' k) = failed e w'' (k ∙ h)

  after_step-IsWritten :
      (w : Writing S) (step : Step S E) (fuel : ℕ)
      (rest : Writing S → Option (Result (Unit {0}) E × Writing S))
      → ((w' : Writing S)
          → rounds_left w' ≤ fuel
          → (x : Result (Unit {0}) E × Writing S) × (rest w' ≡ some x) × IsWritten w' x)
      → rounds_left w ≤ suc fuel
      → Goes w step
      → (x : Result (Unit {0}) E × Writing S) × (after_step output u step rest ≡ some x)
        × IsWritten w x
  unfolding after_step Goes
  after_step-IsWritten w (fail e w') fuel rest ih b h =
      ((err e, w'), refl, failed e w' (unfold total in h))
  after_step-IsWritten w (next w') fuel rest ih b (h, k) =
      let (x, e, i) = ih w' (omega arith) in (x, e, IsWritten-earlier w w' x h i)

  nothing_left : (w : Writing S) → is_empty w.bytes ≡ true → IsWritten w (ok tt, w)
  nothing_left w h = all_written w (empty_right (written w.host) w.bytes h)
    where
      empty_right : (xs ys : Bytes) → is_empty ys ≡ true → xs ≡ xs ++ ys
      empty_right xs [] h = sym (append-nil xs)
      empty_right xs (y ∷ ys) h = absurd cc

  length_pos : (bytes : Bytes) → is_empty bytes ≡ false → 0 < length bytes
  length_pos [] h = absurd cc
  length_pos (b ∷ bs) h = omega arith

  -- Writing a chunk ends, within as many rounds as it has bytes and the stream asks to wait; and then
  -- the stream has taken all the bytes, once and in order, or writing has failed and what the stream
  -- has taken is the part of them before the rest that is still to be written.
  pub write_all-IsWritten :
      (fuel : ℕ) (w : Writing S)
      → length w.bytes + rank w.host ≤ fuel
      → (x : Result (Unit {0}) E × Writing S) × (write_all output u fuel w ≡ some x) × IsWritten w x
  unfolding write_all
  write_all-IsWritten zero w b = elim (Bool-cases (is_empty w.bytes)) [
    | inl e ↦ rw e ((ok tt, w), refl, nothing_left w e)
    | inr e ↦ absurd (omega (arith, length_pos w.bytes e))
  ]
  write_all-IsWritten (suc fuel) w b = elim (Bool-cases (is_empty w.bytes)) [
    | inl e ↦ rw e ((ok tt, w), refl, nothing_left w e)
    | inr e ↦ rw e (
        after_step-IsWritten w (on_capacity output u w (output.check_write w.host)) fuel
          (write_all output u fuel)
          (λ w' b'. write_all-IsWritten fuel w' (unfold rounds_left in b'))
          (unfold rounds_left in b) (on_capacity-Goes w (output.check_write w.host) refl e))
  ]
