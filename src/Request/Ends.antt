-- ===== src/Request/Ends.antt =====
-- Under a budget the loop ends, whatever the host answers.
use leptos_wasi.Prelude.{
  ℕ, zero, suc, ◌+◌, ◌*◌, ◌-◌, ◌≤◌, ◌<◌, ◌≡◌, refl, [], ◌∷◌, Option, none, some, Result, ok, err,
  length, length-append, arith, Bool-cases, inl, inr,
}
use leptos_wasi.Std.Str.{Bytes}
use leptos_wasi.Request.{
  RequestError, Method, is_get_or_head, Read, closed, last_operation_failed, received, Host, Loop,
  Step, break, next, note_empty_body_read, on_read, on_empty, on_timed_read, timed_round, round,
  after_round, collect_loop, finish_body, finish_collected, open_and_collect, collect_wasi_body,
}
use leptos_wasi.Request.Bounded.{IsBounded, collect_wasi_body-IsBounded}

-- How many rounds are left at most: each byte of the limit allows for 64 of them.
abbrev rounds_left : {S : Type 0} → ℕ → Loop S → ℕ
rounds_left m l = (m - length l.body) * 64 + (64 - l.consecutive_empty)

abbrev IsRunning : {S : Type 0} → ℕ → Loop S → Type 0
IsRunning m l = (length l.body ≤ m) × (l.consecutive_empty < 64)

-- A step that goes on leaves fewer rounds than `bound`.
Falls : {S : Type 0} → ℕ → ℕ → Step S → Type 0
Falls m bound (break r l) = Unit
Falls m bound (next l) = IsRunning m l × (rounds_left m l < bound)

on_read-Falls :
    {S : Type 0} (u m : ℕ) (l : Loop S) (b : ℕ) (bs : Bytes)
    → m < u
    → IsRunning m l
    → Falls m (rounds_left m l) (on_read u m l (received (b ∷ bs)))
unfolding Falls on_read
on_read-Falls u m l b bs k h = ground (arith, length-append l.body (b ∷ bs))

module _ {S : Type 0} (host : Host S) (u m : ℕ) where
  on_empty-Falls :
      (budget bound : ℕ) (r : Result (Unit {0}) RequestError) (l : Loop S)
      → (r ≡ ok tt → IsRunning m l × (rounds_left m l < bound))
      → Falls m bound (on_empty host u m budget r l)
  unfolding Falls on_empty
  on_empty-Falls budget bound (err e) l h = tt
  on_empty-Falls budget bound (ok tt) l h = elim (Bool-cases (host.poll_deadline l.host).0) [
    | inl e ↦ rw e tt
    | inr e ↦ rw e (h refl)
  ]

  counted :
      (l : Loop S)
      → IsRunning m l
      → (note_empty_body_read l.consecutive_empty).0 ≡ ok tt
      → IsRunning m (record l { consecutive_empty = (note_empty_body_read l.consecutive_empty).1 })
        × (rounds_left m
              (record l { consecutive_empty = (note_empty_body_read l.consecutive_empty).1 })
            < rounds_left m l)
  unfolding note_empty_body_read
  counted l h e = ground arith

  on_timed_read-Falls :
      (budget : ℕ) (l : Loop S) (r : Read)
      → m < u
      → IsRunning m l
      → Falls m (rounds_left m l) (on_timed_read host u m budget l r)
  unfolding Falls on_timed_read
  on_timed_read-Falls budget l closed k h = unfold on_read in tt
  on_timed_read-Falls budget l last_operation_failed k h = unfold on_read in tt
  on_timed_read-Falls budget l (received []) k h = on_empty-Falls budget _ _ _ (counted l h)
  on_timed_read-Falls budget l (received (b ∷ bs)) k h = on_read-Falls u m l b bs k h

  round-Falls :
      (budget : ℕ) (l : Loop S)
      → m < u
      → IsRunning m l
      → Falls m (rounds_left m l) (round host u m (some budget) l)
  unfolding Falls round timed_round
  round-Falls budget l k h = elim (Bool-cases (host.deadline_ready l.host).0) [
    | inl e ↦ rw e tt
    | inr e ↦ rw e (on_timed_read-Falls budget _ _ k h)
  ]

  after_round-ends :
      (rest : Loop S → Option (Result (Unit {0}) RequestError × Loop S)) (step : Step S)
      (bound fuel : ℕ)
      → ((l : Loop S)
          → IsRunning m l
          → rounds_left m l ≤ fuel
          → (x : Result (Unit {0}) RequestError × Loop S) × (rest l ≡ some x))
      → bound ≤ suc fuel
      → Falls m bound step
      → (x : Result (Unit {0}) RequestError × Loop S) × (after_round host u m step rest ≡ some x)
  unfolding Falls after_round
  after_round-ends rest (break r l) bound fuel ih b h = ((r, l), refl)
  after_round-ends rest (next l) bound fuel ih b h = ih l h.0 (omega arith)

  collect_loop-ends :
      (budget fuel : ℕ) (l : Loop S)
      → m < u
      → IsRunning m l
      → rounds_left m l ≤ fuel
      → (x : Result (Unit {0}) RequestError × Loop S) × (collect_loop host u m (some budget) fuel l
          ≡ some x)
  unfolding collect_loop
  collect_loop-ends budget zero l k h b = absurd (omega arith)
  collect_loop-ends budget (suc fuel) l k h b =
      after_round-ends (collect_loop host u m (some budget) fuel) (round host u m (some budget) l)
        (rounds_left m l) fuel (λ l' h' b'. collect_loop-ends budget fuel l' k h' b') b
        (round-Falls budget l k h)

  finish_collected-ends :
      (declared : Option ℕ) (found : Option (Result (Unit {0}) RequestError × Loop S))
      → (y : Result (Unit {0}) RequestError × Loop S) × (found ≡ some y)
      → (x : Result Bytes RequestError × S) × (finish_collected host u m declared found ≡ some x)
  unfolding finish_collected
  finish_collected-ends declared none (y, e) = absurd cc
  finish_collected-ends declared (some (r, l)) h = (finish_body host u m declared r l, refl)

  open_and_collect-ends :
      (fuel budget : ℕ) (declared : Option ℕ) (s : S)
      → m < u
      → 64 * (m + 1) ≤ fuel
      → (x : Result Bytes RequestError × S) × (open_and_collect host u m fuel declared
            (some budget)
            s
          ≡ some x)
  unfolding open_and_collect
  open_and_collect-ends fuel budget declared s k b = elim (Bool-cases (host.consume s).0) [
    | inl e ↦ elim (Bool-cases (host.stream (host.consume s).1).0) [
      | inl e' ↦
          rw (e, e')
            (finish_collected-ends declared _
              (collect_loop-ends budget fuel _ k (omega arith, omega arith) (omega arith)))
      | inr e' ↦ rw (e, e') (_, refl)
    ]
    | inr e ↦ rw e (_, refl)
  ]

  -- With a read budget, collecting a body ends after at most 64 rounds for each byte of the limit
  -- and 64 more, whatever the stream and the timer answer and in whatever order; and it ends with
  -- an error, or with no bytes for `GET` and `HEAD`, or with bytes within the limit and as many as
  -- declared. The limit is below the largest `usize`.
  pub collect_wasi_body-ends :
      (fuel budget : ℕ) (declared : Option ℕ) (method : Method) (s : S)
      → m < u
      → 64 * (m + 1) ≤ fuel
      → (x : Result Bytes RequestError × S) × (collect_wasi_body host u m fuel
            (ok declared)
            method
            (some budget)
            s
          ≡ some x)
        × IsBounded m declared method x.0
  collect_wasi_body-ends fuel budget declared method s k b =
      let (x, e) = found in
      (x, e, collect_wasi_body-IsBounded host u m fuel declared (some budget) method s x.1 x.0 k e)
    where
      found :
          (x : Result Bytes RequestError × S) × (collect_wasi_body host u m fuel
              (ok declared)
              method
              (some budget)
              s
            ≡ some x)
      found =
          unfold collect_wasi_body in
          elim (Bool-cases (is_get_or_head method)) [
            | inl e ↦ rw e (_, refl)
            | inr e ↦ rw e (open_and_collect-ends fuel budget declared s k b)
          ]
