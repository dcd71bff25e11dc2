-- ===== src/Request/Stream.antt =====
-- Without a budget the body is the stream: the chunks in order, or an error when they exceed the
-- limit.
use leptos_wasi.Prelude.{
  ℕ, zero, suc, ◌+◌, ◌≤◌, ◌<◌, ◌≡◌, refl, subst, ap, ◌∙◌, Bool, true, false, not, List, [], ◌∷◌,
  ◌++◌, Option, none, some, Result, ok, err, if◌then◌else◌, ltb, length, length-append, min, arith,
  Bool-cases, inl, inr,
}
use mathlib.Core.List.{append-nil, append_assoc}
use leptos_wasi.Std.Str.{Bytes}
use leptos_wasi.Handler.Policy.{invalid_content_length}
use leptos_wasi.Request.{
  RequestError, body_too_large, policy, Method, is_get_or_head, closed, received, Host, Loop,
  declared_length_matches, on_read, round, after_round, collect_loop, finish_body, finish_collected,
  open_and_collect, collect_wasi_body,
}

abbrev pub concat : List Bytes → Bytes
concat [] = []
concat (c ∷ cs) = c ++ concat cs

module _ {S : Type 0} (host : Host S) where
  -- The blocking reads from `s` on answer the chunks in order, and then that the stream is closed.
  unfoldable pub Serves : List Bytes → S → Type 0
  Serves [] s = (s' : S) × (host.blocking_read s ≡ (closed, s'))
  Serves (c ∷ cs) s = (s' : S) × (host.blocking_read s ≡ (received c, s')) × Serves cs s'

-- What a body limited to `max` should give, for the bytes that the client sends.
unfoldable pub expected : ℕ → Option ℕ → Bytes → Result Bytes RequestError
expected max declared bytes =
    if ltb max (length bytes)
    then err (body_too_large max)
    else if declared_length_matches declared (length bytes)
    then ok bytes
    else err (policy invalid_content_length)

-- The outcome of the loop, without its counter and the host.
unfoldable expected_loop : ℕ → Bytes → Result (Unit {0}) RequestError
expected_loop max bytes = if ltb max (length bytes) then err (body_too_large max) else ok tt

module _ {S : Type 0} (host : Host S) (u m : ℕ) where
  -- The loop has ended, as it should for these bytes.
  record Gave (bytes : Bytes) (x : Option (Result (Unit {0}) RequestError × Loop S)) : Type 0 where
    result : Result (Unit {0}) RequestError
    loop : Loop S
    ended : x ≡ some (result, loop)
    as_expected : result ≡ expected_loop m bytes
    all_bytes : result ≡ ok tt → loop.body ≡ bytes

  Gave-closed :
      (l : Loop S) (rest : Loop S → Option (Result (Unit {0}) RequestError × Loop S))
      → length l.body ≤ m
      → Gave (l.body ++ []) (after_round host u m (on_read u m l closed) rest)
  unfolding after_round on_read
  Gave-closed l rest h = rw (append-nil l.body) record {
    result = ok tt;
    loop = l;
    ended = refl;
    as_expected = unfold expected_loop in ground arith;
    all_bytes = λ e. refl;
  }

  length-append_le : (xs ys : Bytes) → length xs ≤ length (xs ++ ys)
  length-append_le xs ys = omega (arith, length-append xs ys)

  Gave-received :
      (l : Loop S) (c : Bytes) (more : Bytes)
      (rest : Loop S → Option (Result (Unit {0}) RequestError × Loop S))
      → m < u
      → (length (l.body ++ c) ≤ m
          → Gave
              ((l.body ++ c) ++ more)
              (rest (record l { body = l.body ++ c; consecutive_empty = 0 })))
      → Gave (l.body ++ (c ++ more)) (after_round host u m (on_read u m l (received c)) rest)
  unfolding after_round on_read
  Gave-received l c more rest k ih = elim (Bool-cases (ltb m (min (length l.body + length c) u))) [
    | inl e ↦ rw e record {
      result = err (body_too_large m);
      loop = record l { consecutive_empty = 0 };
      ended = refl;
      as_expected = over e;
      all_bytes = λ e. absurd cc;
    }
    | inr e ↦ rw e (
        subst (λ x. Gave x (rest (record l { body = l.body ++ c; consecutive_empty = 0 })))
          (append_assoc l.body c more) (ih (within e)))
  ]
    where
      over :
          ltb m (min (length l.body + length c) u) ≡ true
          → Path
              (Result (Unit {0}) RequestError)
              (err (body_too_large m))
              (expected_loop m (l.body ++ (c ++ more)))
      over e =
          unfold expected_loop in
          ground (arith, length-append l.body (c ++ more), length-append c more)

      within : ltb m (min (length l.body + length c) u) ≡ false → length (l.body ++ c) ≤ m
      within e = ground (arith, length-append l.body c)

  collect_loop-Gave :
      (fuel : ℕ) (chunks : List Bytes) (l : Loop S)
      → m < u
      → length chunks < fuel
      → length l.body ≤ m
      → Serves host chunks l.host
      → Gave (l.body ++ concat chunks) (collect_loop host u m none fuel l)
  unfolding collect_loop round Serves
  collect_loop-Gave zero chunks l k f b h = absurd (omega arith)
  collect_loop-Gave (suc fuel) [] l k f b (s', e) = rw e (Gave-closed (record l { host = s' }) _ b)
  collect_loop-Gave (suc fuel) (c ∷ cs) l k f b (s', e, h) = rw e (
      Gave-received (record l { host = s' }) c (concat cs) _ k
        λ b'.
          collect_loop-Gave fuel cs
            (record { body = l.body ++ c; consecutive_empty = 0; host = s' }) k (omega arith) b' h)

  if_not : {A : Type 0} (b : Bool) (x y : A) → (if not b then x else y) ≡ (if b then y else x)
  if_not true x y = refl
  if_not false x y = refl

  finish_expected :
      (declared : Option ℕ) (bytes : Bytes) (x : Option (Result (Unit {0}) RequestError × Loop S))
      → Gave bytes x
      → (s' : S) × (finish_collected host u m declared x ≡ some (expected m declared bytes, s'))
  unfolding finish_collected finish_body expected expected_loop
  finish_expected declared bytes x h = elim (Bool-cases (ltb m (length bytes))) [
    | inl e ↦
        let failed : h.result ≡ err (body_too_large m) = h.as_expected ∙ rw e refl in
        rw (h.ended, failed, e) (host.finish h.loop.host, refl)
    | inr e ↦
        let succeeded : h.result ≡ ok tt = h.as_expected ∙ rw e refl in
        rw (h.ended, succeeded, h.all_bytes succeeded, e)
          (
            host.finish h.loop.host,
            ap (λ x. some (x, host.finish h.loop.host))
                (if_not (declared_length_matches declared (length bytes))
                  (err (policy invalid_content_length)) (ok bytes)),
          )
  ]

  -- Without a read budget, a request with a body, on a stream that answers some chunks and then
  -- closes: collecting the body ends within one round more than there are chunks, and gives all
  -- their bytes in order, unless they exceed the limit or differ in number from the declared
  -- length, when it gives the error that says so. The limit is below the largest `usize`, and the
  -- host opens the stream.
  pub collect_wasi_body-expected :
      (fuel : ℕ) (chunks : List Bytes) (declared : Option ℕ) (method : Method) (s : S)
      → m < u
      → length chunks < fuel
      → is_get_or_head method ≡ false
      → (host.consume s).0 ≡ true
      → (host.stream (host.consume s).1).0 ≡ true
      → Serves host chunks (host.stream (host.consume s).1).1
      → (s' : S) × (collect_wasi_body host u m fuel (ok declared) method none s
          ≡ some (expected m declared (concat chunks), s'))
  unfolding collect_wasi_body open_and_collect
  collect_wasi_body-expected fuel chunks declared method s k f g c o h =
      rw (g, c, o)
        (finish_expected declared (concat chunks) _
          (collect_loop-Gave fuel chunks _ k f (omega arith) h))
