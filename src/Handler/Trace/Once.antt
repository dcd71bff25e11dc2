-- ===== src/Handler/Trace/Once.antt =====
-- A request is reported once, with the time of its first byte.
use leptos_wasi.Prelude.{
  ℕ, suc, ◌-◌, ◌^◌, ◌<◌, ◌≡◌, refl, ap, ◌∙◌, true, false, not, List, [], ◌∷◌, ◌++◌, map, none, some,
  if◌then◌else◌, ◌==◌, arith, Bool-cases, inl, inr,
}
use leptos_wasi.Handler.Trace.{
  RequestTraceState, encoded, mark_first_byte, checked_pred, finish, Event, first_byte, done,
  prepend, reports,
}

pub finish_first :
    (s : RequestTraceState)
    → s.finished ≡ false
    → finish s ≡ (some (checked_pred s.first_byte_micros), record s { finished = true })
unfolding finish
finish_first s h =
    ap
      (λ b.
        if b
        then (none, s)
        else (some (checked_pred s.first_byte_micros), record s { finished = true }))
      h

pub finish_again : (s : RequestTraceState) → s.finished ≡ true → finish s ≡ (none, s)
unfolding finish
finish_again s h =
    ap
      (λ b.
        if b
        then (none, s)
        else (some (checked_pred s.first_byte_micros), record s { finished = true }))
      h

mark_again :
    (elapsed : ℕ) (s : RequestTraceState)
    → (s.first_byte_micros == 0) ≡ false
    → mark_first_byte elapsed s ≡ s
unfolding mark_first_byte
mark_again elapsed s h =
    ap (λ b. if not b then s else record s { first_byte_micros = encoded elapsed }) h

mark_first :
    (elapsed : ℕ) (s : RequestTraceState)
    → (s.first_byte_micros == 0) ≡ true
    → mark_first_byte elapsed s ≡ record s { first_byte_micros = encoded elapsed }
unfolding mark_first_byte
mark_first elapsed s h =
    ap (λ b. if not b then s else record s { first_byte_micros = encoded elapsed }) h

pub mark_finished :
    (elapsed : ℕ) (s : RequestTraceState) → (mark_first_byte elapsed s).finished ≡ s.finished
mark_finished elapsed s = elim (Bool-cases (s.first_byte_micros == 0)) [
  | inl e ↦ ap (λ x. x.finished) (mark_first elapsed s e)
  | inr e ↦ ap (λ x. x.finished) (mark_again elapsed s e)
]

-- After the report there is none.
reports_finished :
    (events : List Event) (s : RequestTraceState) → s.finished ≡ true → reports events s ≡ []
unfolding reports
reports_finished [] s h = refl
reports_finished (first_byte elapsed ∷ events) s h =
    reports_finished events (mark_first_byte elapsed s) (mark_finished elapsed s ∙ h)
reports_finished (done ∷ events) s h =
    ap (λ x. prepend x.0 (reports events x.1)) (finish_again s h) ∙ reports_finished events s h

reports_marked :
    (later : List ℕ) (events : List Event) (s : RequestTraceState)
    → s.finished ≡ false
    → (s.first_byte_micros == 0) ≡ false
    → reports (map first_byte later ++ done ∷ events) s ≡ checked_pred s.first_byte_micros ∷ []
unfolding reports
reports_marked [] events s h k =
    ap (λ x. prepend x.0 (reports events x.1)) (finish_first s h)
    ∙ ap (◌∷◌ (checked_pred s.first_byte_micros))
        (reports_finished events (record s { finished = true }) refl)
reports_marked (elapsed ∷ later) events s h k =
    ap (reports (map first_byte later ++ done ∷ events)) (mark_again elapsed s k)
    ∙ reports_marked later events s h k

encoded_lem : (elapsed : ℕ) → elapsed < 2 ^ 64 - 1 → encoded elapsed ≡ suc elapsed
unfolding encoded
encoded_lem elapsed h = ground arith

suc_test : (n : ℕ) → (suc n == 0) ≡ false
suc_test n = ground arith

-- Whatever is marked or finished later, a request whose first byte is marked, and which then ends,
-- is reported exactly once, with the time of that first byte. The time is below 2 ^ 64 - 1
-- microseconds.
pub reports_once :
    (elapsed : ℕ) (later : List ℕ) (events : List Event)
    → elapsed < 2 ^ 64 - 1
    → reports
        (first_byte elapsed ∷ (map first_byte later ++ done ∷ events))
        (record { first_byte_micros = 0; finished = false })
      ≡ some elapsed ∷ []
unfolding reports
reports_once elapsed later events h =
    ap (reports (map first_byte later ++ done ∷ events)) (
      mark_first elapsed fresh refl
      ∙ ap (λ n. record fresh { first_byte_micros = n }) (encoded_lem elapsed h))
    ∙ reports_marked later events (record { first_byte_micros = suc elapsed; finished = false })
        refl (suc_test elapsed)
  where
    fresh : RequestTraceState
    fresh = record { first_byte_micros = 0; finished = false }
