-- ===== src/Handler/Wasip2/Send/Transferred.antt =====
-- A transfer ends, and leaves the log as it was.
use leptos_wasi.Prelude.{
  ℕ, zero, suc, ◌+◌, ◌≤◌, ◌<◌, ◌≡◌, refl, subst, List, Option, none, some, Result, ok, err, length,
  arith,
}
use leptos_wasi.Std.Str.{Bytes}
use leptos_wasi.Http.{Body, sync, async}
use leptos_wasi.Handler.Wasip2.{Writing, write_all}
use leptos_wasi.Handler.Wasip2.Written.{IsSink, write_all-IsWritten}
use leptos_wasi.Handler.Wasip2.Kept.{write_all-keeps}
use leptos_wasi.Handler.Wasip2.Send.{
  HandlerError, Host, Act, World, call, prepare, output, Transfer, and_then, on_item,
  transfer_stream, transfer_body, flush_and_wait,
}
use leptos_wasi.Handler.Wasip2.Send.Acts.{and_next-keeps}

-- A measure of what is still to come: each chunk of the body's stream lowers it by more than its
-- length, each wait for the output stream lowers it, and no other call raises it.
pub record IsFinite {S H X C : Type 0} (host : Host S H X C) (rank : S → ℕ) : Type 0 where
  pub from_list_rank : (headers : H) (s : S) → rank (host.from_list headers s).1 ≤ rank s
  pub status_rank : (status : ℕ) (s : S) → rank (host.set_status_code status s).1 ≤ rank s
  pub body_rank : (s : S) → rank (host.body s).1 ≤ rank s
  pub write_stream_rank : (s : S) → rank (host.write_stream s).1 ≤ rank s
  pub next_rank :
      (bytes : Bytes) (s : S)
      → (host.next s).0 ≡ some (ok bytes)
      → length bytes + rank (host.next s).1 < rank s

abbrev pub body_length : {Stream : Type 0} → Body Stream → ℕ
body_length (sync bytes) = length bytes
body_length (async stream) = 0

module _ {S : Type 0} (rank : S → ℕ) where
  -- The log is as before, and no more is to come than before.
  unfoldable pub IsNear : List Act → ℕ → World S → Type 0
  IsNear before n w = (w.acts ≡ before) × (rank w.host ≤ n)

module _ {S H X C : Type 0} (host : Host S H X C) where
  -- A transfer that has enough fuel ends, with the log as it was.
  unfoldable pub Done : List Act → Transfer host → Type 0
  Done before transfer =
      (x : Result (Unit {0}) (HandlerError X C) × Writing (World S)) × (transfer ≡ some x)
      × (x.1.host.acts ≡ before)

  flush_and_wait-Done :
      (before : List Act) (t : Writing (World S))
      → t.host.acts ≡ before
      → Done before (flush_and_wait host t)
  unfolding flush_and_wait Done
  flush_and_wait-Done before t h =
      (_, refl, and_next-keeps (λ (v : World S). v.acts ≡ before) _ _ h λ v p. p)

  pub flushed-Done :
      (before : List Act) (transfer : Transfer host)
      → Done before transfer
      → Done before (and_then host transfer (flush_and_wait host))
  unfolding Done
  flushed-Done before transfer ((ok _, t), e, h) = rw e (flush_and_wait-Done before t h)
  flushed-Done before transfer ((err x, t), e, h) = rw e ((err x, t), refl, h)

module _ {S H X C : Type 0} (host : Host S H X C) (u : ℕ) (written : S → Bytes) (rank : S → ℕ)
    (sink : IsSink (output host) (λ w. written w.host) (λ w. rank w.host))
    (finite : IsFinite host rank) (u_pos : 0 < u) where
  pub prepare-IsNear :
      (status : ℕ) (headers : H) (w : World S)
      → IsNear rank w.acts (rank w.host) (prepare host status headers w).1
  unfolding prepare IsNear
  prepare-IsNear status headers w =
      and_next-keeps (λ (v : World S). (v.acts ≡ w.acts) × (rank v.host ≤ rank w.host)) _ _
        (refl, finite.from_list_rank headers w.host)
        λ v p.
          and_next-keeps (λ (v : World S). (v.acts ≡ w.acts) × (rank v.host ≤ rank w.host)) _ _
            (p.0, omega (arith, p.1, finite.status_rank status v.host))
            λ v p.
              and_next-keeps (λ (v : World S). (v.acts ≡ w.acts) × (rank v.host ≤ rank w.host)) _ _
                (p.0, omega (arith, p.1, finite.body_rank v.host))
                λ v p. (p.0, omega (arith, p.1, finite.write_stream_rank v.host))

  checked-IsNear :
      (before : List Act) (n : ℕ) (s : World S)
      → IsNear rank before n s
      → IsNear rank before n ((output host).check_write s).1
  unfolding IsNear output
  checked-IsNear before n s p = (p.0, omega (arith, p.1, sink.check_rank s))

  waited-IsNear :
      (before : List Act) (n : ℕ) (s : World S)
      → IsNear rank before n s
      → ((output host).check_write s).0 ≡ ok 0
      → IsNear rank before n ((output host).wait ((output host).check_write s).1).1
  unfolding IsNear output
  waited-IsNear before n s p h = (p.0, omega (arith, p.1, sink.wait_rank s h))

  wrote-IsNear :
      (before : List Act) (n : ℕ) (b : Bytes) (s : World S)
      → IsNear rank before n s
      → IsNear rank before n ((output host).write b s).1
  unfolding IsNear output
  wrote-IsNear before n b s p = (p.0, omega (arith, p.1, sink.write_rank b s))

  write_all-IsNear :
      (before : List Act) (n fuel : ℕ) (t : Writing (World S))
      → IsNear rank before n t.host
      → length t.bytes + rank t.host.host ≤ fuel
      → (x : Result (Unit {0}) (HandlerError X C) × Writing (World S)) × (write_all
            (output host)
            u
            fuel
            t
          ≡ some x)
        × IsNear rank before n x.1.host
  write_all-IsNear before n fuel t near b =
      let (x, e, i) = write_all-IsWritten (output host) u _ _ sink u_pos fuel t b in
      (
        x,
        e,
        write_all-keeps (output host) u (IsNear rank before n) (checked-IsNear before n)
            (waited-IsNear before n) (wrote-IsNear before n) fuel t x near e,
      )

  -- What goes on after a chunk is written.
  and_then-Done :
      (before : List Act) (n : ℕ) (transfer : Transfer host) (k : Writing (World S) → Transfer host)
      → ((x : Result (Unit {0}) (HandlerError X C) × Writing (World S)) × (transfer ≡ some x)
          × IsNear rank before n x.1.host)
      → ((t : Writing (World S)) → IsNear rank before n t.host → Done host before (k t))
      → Done host before (and_then host transfer k)
  unfolding Done IsNear
  and_then-Done before n transfer k ((ok _, t), e, near) rest = rw e (rest t near)
  and_then-Done before n transfer k ((err x, t), e, near) rest = rw e ((err x, t), refl, near.0)

  on_item-Done :
      (fuel : ℕ) (t : Writing (World S)) (answer : Option (Result Bytes X) × World S)
      (rest : Writing (World S) → Transfer host)
      → answer.1.acts ≡ t.host.acts
      → ((bytes : Bytes) → answer.0 ≡ some (ok bytes) → length bytes + rank answer.1.host < fuel)
      → ((v : Writing (World S))
          → v.host.acts ≡ t.host.acts
          → rank v.host.host < fuel
          → Done host t.host.acts (rest v))
      → Done host t.host.acts (on_item host t answer (write_all (output host) u fuel) rest)
  unfolding on_item
  on_item-Done fuel t (none, w) rest h b ih = unfold Done in (_, refl, h)
  on_item-Done fuel t (some (err x), w) rest h b ih = unfold Done in (_, refl, h)
  on_item-Done fuel t (some (ok bytes), w) rest h b ih =
      and_then-Done t.host.acts (rank w.host) _ rest
        (write_all-IsNear t.host.acts (rank w.host) fuel (record t { bytes = bytes; host = w })
          (unfold IsNear in (h, omega arith)) (omega (arith, b bytes refl)))
        (λ v near. unfold IsNear in ih v near.0 (omega (arith, near.1, b bytes refl)))

  transfer_stream-Done :
      (fuel : ℕ) (t : Writing (World S))
      → rank t.host.host < fuel
      → Done host t.host.acts (transfer_stream host u fuel t)
  unfolding transfer_stream
  transfer_stream-Done zero t b = absurd (omega (arith, b))
  transfer_stream-Done (suc fuel) t b =
      on_item-Done fuel t (call host.next t.host) (transfer_stream host u fuel) refl
        (λ bytes h. omega (arith, b, finite.next_rank bytes t.host.host h))
        (λ v e r.
          subst (λ acts. Done host acts (transfer_stream host u fuel v)) e
            (transfer_stream-Done fuel v r))

  pub transfer_body-Done :
      {Stream : Type 0} (fuel : ℕ) (body : Body Stream) (t : Writing (World S))
      → body_length body + rank t.host.host < fuel
      → Done host t.host.acts (transfer_body host u fuel body t)
  unfolding transfer_body
  transfer_body-Done fuel (sync bytes) t b =
      let (x, e, near) =
        write_all-IsNear t.host.acts (rank t.host.host) fuel (record t { bytes = bytes })
          (unfold IsNear in (refl, omega arith)) (omega arith) in
      unfold Done in (x, e, unfold IsNear in near.0)
  transfer_body-Done fuel (async stream) t b = transfer_stream-Done fuel t (omega (arith, b))
