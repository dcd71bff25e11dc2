-- ===== src/Handler/Wasip2/Kept.antt =====
-- What the calls of the stream keep, `write_all` keeps.
use leptos_wasi.Prelude.{
  ℕ, zero, suc, ◌≡◌, ◌≢◌, refl, subst, ap, Option, none, some, Result, ok, err, ◌==◌, is_empty,
  take, Bool-cases, inl, inr, ==_iff,
}
use leptos_wasi.Std.Str.{Bytes}
use leptos_wasi.Handler.Wasip2.{
  Output, Writing, Step, fail, next, on_wait, on_write, chunk, on_capacity, after_step, write_all,
}

module _ {S E : Type 0} (output : Output S E) (u : ℕ) (P : S → Type 0)
    (check_keeps : (s : S) → P s → P (output.check_write s).1)
    (wait_keeps : (s : S)
      → P s
      → (output.check_write s).0 ≡ ok 0
      → P (output.wait (output.check_write s).1).1)
    (write_keeps : (b : Bytes) (s : S) → P s → P (output.write b s).1) where
  Keeps : Step S E → Type 0
  Keeps (fail e w) = P w.host
  Keeps (next w) = P w.host

  on_wait-Keeps :
      (w : Writing S) (answer : Result (Unit {0}) E × S)
      → P answer.1
      → Keeps (on_wait output u w answer)
  unfolding on_wait Keeps
  on_wait-Keeps w (err e, s) p = p
  on_wait-Keeps w (ok _, s) p = p

  on_write-Keeps :
      (n : ℕ) (w : Writing S) (answer : Result (Unit {0}) E × S)
      → P answer.1
      → Keeps (on_write output u n w answer)
  unfolding on_write Keeps
  on_write-Keeps n w (err e, s) p = p
  on_write-Keeps n w (ok _, s) p = p

  on_capacity-Keeps :
      (w : Writing S) (answer : Result ℕ E × S)
      → output.check_write w.host ≡ answer
      → P w.host
      → Keeps (on_capacity output u w answer)
  unfolding on_capacity
  on_capacity-Keeps w (err e, s) h p = unfold Keeps in rw h at (check_keeps w.host p)
  on_capacity-Keeps w (ok capacity, s) h p = elim (Bool-cases (capacity == 0)) [
    | inl z ↦ rw z (
        on_wait-Keeps (record w { host = s }) (output.wait s)
          (rw h at (wait_keeps w.host p (rw h (ap ok ((==_iff capacity 0).0 z))))))
    | inr z ↦ rw z (
        on_write-Keeps (chunk output u capacity w.bytes) (record w { host = s })
          (output.write (take (chunk output u capacity w.bytes) w.bytes) s)
          (write_keeps (take (chunk output u capacity w.bytes) w.bytes) s
            (rw h at (check_keeps w.host p))))
  ]

  ended : (x y : Result (Unit {0}) E × Writing S) → P x.1.host → some x ≡ some y → P y.1.host
  ended x y p h = subst (λ z. P (z.1.host)) (same h) p
    where
      same : some x ≡ some y → x ≡ y
      same e = cc

  stuck : (x : Result (Unit {0}) E × Writing S) → none ≢ some x
  stuck x h = cc

  after_step-Keeps :
      (step : Step S E) (rest : Writing S → Option (Result (Unit {0}) E × Writing S))
      (x : Result (Unit {0}) E × Writing S)
      → ((w : Writing S) → P w.host → rest w ≡ some x → P x.1.host)
      → Keeps step
      → after_step output u step rest ≡ some x
      → P x.1.host
  unfolding after_step Keeps
  after_step-Keeps (fail e w) rest x ih p h = ended (err e, w) x p h
  after_step-Keeps (next w) rest x ih p h = ih w p h

  pub write_all-keeps :
      (fuel : ℕ) (w : Writing S) (x : Result (Unit {0}) E × Writing S)
      → P w.host
      → write_all output u fuel w ≡ some x
      → P x.1.host
  unfolding write_all
  write_all-keeps zero w x p h = elim (Bool-cases (is_empty w.bytes)) [
    | inl e ↦ ended (ok tt, w) x p (rw e at h)
    | inr e ↦ absurd (stuck x (rw e at h))
  ]
  write_all-keeps (suc fuel) w x p h = elim (Bool-cases (is_empty w.bytes)) [
    | inl e ↦ ended (ok tt, w) x p (rw e at h)
    | inr e ↦
        after_step-Keeps (on_capacity output u w (output.check_write w.host))
          (write_all output u fuel) x (λ v q k. write_all-keeps fuel v x q k)
          (on_capacity-Keeps w (output.check_write w.host) refl p) (rw e at h)
  ]
