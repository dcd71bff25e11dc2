-- ===== src/Request/Bounded.antt =====
-- A collected body keeps to its limit and to its declared length.
use leptos_wasi.Prelude.{
  ℕ, zero, suc, ◌≤◌, ◌<◌, ◌≡◌, refl, subst, true, [], ◌∷◌, Option, none, some, Result, ok, err,
  length, length-append, arith, Bool-cases, inl, inr,
}
use leptos_wasi.Std.Str.{Bytes}
use leptos_wasi.Request.{
  RequestError, Method, is_get_or_head, Read, closed, last_operation_failed, received, Host, Loop,
  Step, break, next, declared_length_matches, on_read, on_empty, on_timed_read, timed_round, round,
  after_round, collect_loop, finish_body, finish_collected, open_and_collect, collect_wasi_body,
  body_stream_unavailable, body_already_consumed,
}

some-eq : {A : Type 0} {x y : A} → some x ≡ some y → x ≡ y
some-eq h = cc

-- Wherever a step leads, its body is within the limit.
unfoldable pub StepWithin : {S : Type 0} → ℕ → Step S → Type 0
StepWithin m (break r l) = length l.body ≤ m
StepWithin m (next l) = length l.body ≤ m

on_read-Within :
    {S : Type 0} (u m : ℕ) (l : Loop S) (r : Read)
    → m < u
    → length l.body ≤ m
    → StepWithin m (on_read u m l r)
unfolding StepWithin on_read
on_read-Within u m l closed k h = h
on_read-Within u m l last_operation_failed k h = h
on_read-Within u m l (received bytes) k h = ground (arith, length-append l.body bytes)

module _ {S : Type 0} (host : Host S) (u m : ℕ) where
  on_empty-Within :
      (budget : ℕ) (r : Result (Unit {0}) RequestError) (l : Loop S)
      → length l.body ≤ m
      → StepWithin m (on_empty host u m budget r l)
  unfolding StepWithin on_empty
  on_empty-Within budget (err e) l h = h
  on_empty-Within budget (ok _) l h = ground arith

  on_timed_read-Within :
      (budget : ℕ) (l : Loop S) (r : Read)
      → m < u
      → length l.body ≤ m
      → StepWithin m (on_timed_read host u m budget l r)
  unfolding on_timed_read
  on_timed_read-Within budget l closed k h = on_read-Within u m l closed k h
  on_timed_read-Within budget l last_operation_failed k h =
      on_read-Within u m l last_operation_failed k h
  on_timed_read-Within budget l (received []) k h = on_empty-Within budget _ _ h
  on_timed_read-Within budget l (received (b ∷ bs)) k h =
      on_read-Within u m l (received (b ∷ bs)) k h

  pub round-Within :
      (timeout : Option ℕ) (l : Loop S)
      → m < u
      → length l.body ≤ m
      → StepWithin m (round host u m timeout l)
  unfolding round timed_round StepWithin
  round-Within none l k h = on_read-Within u m _ _ k h
  round-Within (some budget) l k h = elim (Bool-cases (host.deadline_ready l.host).0) [
    | inl e ↦ rw e h
    | inr e ↦ rw e (on_timed_read-Within budget _ _ k h)
  ]

  after_round-Within :
      (rest : Loop S → Option (Result (Unit {0}) RequestError × Loop S)) (step : Step S)
      (l' : Loop S) (r : Result (Unit {0}) RequestError)
      → ((l : Loop S) → length l.body ≤ m → rest l ≡ some (r, l') → length l'.body ≤ m)
      → StepWithin m step
      → after_round host u m step rest ≡ some (r, l')
      → length l'.body ≤ m
  unfolding StepWithin after_round
  after_round-Within rest (break r₁ l) l' r ih k h = subst (λ x. length x.1.body ≤ m) (some-eq h) k
  after_round-Within rest (next l) l' r ih k h = ih l k h

  collect_loop-Within :
      (timeout : Option ℕ) (fuel : ℕ) (l l' : Loop S) (r : Result (Unit {0}) RequestError)
      → m < u
      → length l.body ≤ m
      → collect_loop host u m timeout fuel l ≡ some (r, l')
      → length l'.body ≤ m
  unfolding collect_loop
  collect_loop-Within timeout zero l l' r k b h = absurd cc
  collect_loop-Within timeout (suc fuel) l l' r k b h =
      after_round-Within (collect_loop host u m timeout fuel) (round host u m timeout l) l' r
        (λ l₁ b₁ h₁. collect_loop-Within timeout fuel l₁ l' r k b₁ h₁) (round-Within timeout l k b)
        h

-- What holds of a body that was collected: it is within the limit, and unless the method is `GET`
-- or `HEAD` it is as long as declared.
pub data IsBounded (m : ℕ) (declared : Option ℕ) (method : Method)
    : Result Bytes RequestError → Type 0 where
  failed : (e : RequestError) → IsBounded m declared method (err e)
  bodiless : is_get_or_head method ≡ true → IsBounded m declared method (ok [])
  collected :
      (bytes : Bytes)
      → length bytes ≤ m
      → declared_length_matches declared (length bytes) ≡ true
      → IsBounded m declared method (ok bytes)

module _ {S : Type 0} (host : Host S) (u m : ℕ) where
  finish_body-IsBounded :
      (declared : Option ℕ) (method : Method) (r : Result (Unit {0}) RequestError) (l : Loop S)
      → length l.body ≤ m
      → IsBounded m declared method (finish_body host u m declared r l).0
  unfolding finish_body
  finish_body-IsBounded declared method (err e) l b = failed e
  finish_body-IsBounded declared method (ok _) l b =
      elim (Bool-cases (declared_length_matches declared (length l.body))) [
        | inl e ↦ rw e (collected l.body b e)
        | inr e ↦ rw e (failed _)
      ]

  finish_collected-IsBounded :
      (declared : Option ℕ) (method : Method)
      (found : Option (Result (Unit {0}) RequestError × Loop S)) (r : Result Bytes RequestError)
      (s' : S)
      → ((r₁ : Result (Unit {0}) RequestError) (l : Loop S)
          → found ≡ some (r₁, l)
          → length l.body ≤ m)
      → finish_collected host u m declared found ≡ some (r, s')
      → IsBounded m declared method r
  unfolding finish_collected
  finish_collected-IsBounded declared method none r s' b h = absurd cc
  finish_collected-IsBounded declared method (some (r₁, l)) r s' b h =
      subst (λ x. IsBounded m declared method x.0) (some-eq h)
        (finish_body-IsBounded declared method r₁ l (b r₁ l refl))

  open_and_collect-IsBounded :
      (fuel : ℕ) (declared timeout : Option ℕ) (method : Method) (s s' : S)
      (r : Result Bytes RequestError)
      → m < u
      → open_and_collect host u m fuel declared timeout s ≡ some (r, s')
      → IsBounded m declared method r
  unfolding open_and_collect
  open_and_collect-IsBounded fuel declared timeout method s s' r k h =
      elim (Bool-cases (host.consume s).0) [
        | inl e ↦ elim (Bool-cases (host.stream (host.consume s).1).0) [
          | inl e' ↦
              finish_collected-IsBounded declared method _ r s'
                (λ r₁ l. collect_loop-Within host u m timeout fuel _ l r₁ k (omega arith))
                (rw (e, e') at h)
          | inr e' ↦ refused body_stream_unavailable _ (rw (e, e') at h)
        ]
        | inr e ↦ refused body_already_consumed _ (rw e at h)
      ]
    where
      refused :
          (e : RequestError) (s₁ : S)
          → Path (Option (Result Bytes RequestError × S)) (some (err e, s₁)) (some (r, s'))
          → IsBounded m declared method r
      refused e s₁ h = subst (λ x. IsBounded m declared method x.0) (some-eq h) (failed e)

  -- Whatever the host answers, if collecting the body ends, then it ends with an error, or with no
  -- bytes for `GET` and `HEAD`, or with bytes within the limit and as many as declared.
  pub collect_wasi_body-IsBounded :
      (fuel : ℕ) (declared timeout : Option ℕ) (method : Method) (s s' : S)
      (r : Result Bytes RequestError)
      → m < u
      → collect_wasi_body host u m fuel (ok declared) method timeout s ≡ some (r, s')
      → IsBounded m declared method r
  unfolding collect_wasi_body
  collect_wasi_body-IsBounded fuel declared timeout method s s' r k h =
      elim (Bool-cases (is_get_or_head method)) [
        | inl e ↦ subst (λ x. IsBounded m declared method x.0) (some-eq (rw e at h)) (bodiless e)
        | inr e ↦ open_and_collect-IsBounded fuel declared timeout method s s' r k (rw e at h)
      ]
