-- ===== src/Handler/Wasip2/Send/Acts.antt =====
-- What sending a response does to the out-parameter, the body and the trace.
use leptos_wasi.Prelude.{
  ℕ, ◌≡◌, refl, ap, ◌∙◌, Bool, true, false, List, [], ◌∷◌, ◌++◌, Result, ok, err, if◌then◌else◌,
}
use leptos_wasi.Std.Codes.{codes}
use leptos_wasi.Handler.Wasip2.Send.{
  HandlerError, wasi_response_body, Host, Act, committed, closed, finished, reported, World, act,
  and_next, is_cancellation, error_class, commit_internal, on_internal, internal_setup,
  send_internal_error, conclude,
}

appended_four :
    (before : List Act) (a b c d : Act)
    → (((before ++ a ∷ []) ++ b ∷ []) ++ c ∷ []) ++ d ∷ [] ≡ before ++ (a ∷ b ∷ c ∷ d ∷ [])
appended_four [] a b c d = refl
appended_four (e ∷ before) a b c d = ap (◌∷◌ e) (appended_four before a b c d)

pub and_next-keeps :
    {W E : Type 0} (P : W → Type 0) (a : Result (Unit {0}) E × W) (k : W → Result (Unit {0}) E × W)
    → P a.1
    → ((w : W) → P w → P (k w).1)
    → P (and_next a k).1
unfolding and_next
and_next-keeps P (err e, w) k p q = p
and_next-keeps P (ok _, w) k p q = q w p

-- How sending a response ends, by the log of what was done. The response was refused by the host, and
-- an internal error was sent in its place or was refused as well; or it was committed, and then the
-- stream was dropped, the body finished and the trace reported, in this order and once each, whether
-- the transfer went well or not.
pub data IsSent {S X C : Type 0} (status : ℕ) (before : List Act)
    : Result (Unit {0}) (HandlerError X C) × World S → Type 0 where
  refused :
      (e : HandlerError X C) (w : World S)
      → w.acts ≡ before ++ (reported 500 0 false (codes "response_setup") ∷ [])
      → IsSent status before (err e, w)
  replaced :
      (e : HandlerError X C) (w : World S)
      → w.acts
        ≡ before
          ++ (committed 500
              ∷ closed
              ∷ finished
              ∷ reported 500 0 false (codes "response_setup")
              ∷ [])
      → IsSent status before (err e, w)
  sent :
      (n : ℕ) (w : World S)
      → w.acts
        ≡ before
          ++ (committed status ∷ closed ∷ finished ∷ reported status n false (codes "none") ∷ [])
      → IsSent status before (ok tt, w)
  unfinished :
      (c : C) (n : ℕ) (w : World S)
      → w.acts
        ≡ before
          ++ (committed status
              ∷ closed
              ∷ finished
              ∷ reported status n false (codes "response_finish")
              ∷ [])
      → IsSent status before (err (wasi_response_body c), w)
  broken :
      (e : HandlerError X C) (n : ℕ) (w : World S)
      → w.acts
        ≡ before
          ++ (committed status
              ∷ closed
              ∷ finished
              ∷ reported status n (is_cancellation e) (error_class e)
              ∷ [])
      → IsSent status before (err e, w)

module _ {S H X C : Type 0} (host : Host S H X C) where
  -- The log of an internal error: nothing, or a whole answer.
  unfoldable pub InternalActs : List Act → World S → Type 0
  InternalActs before w =
      (answered : Bool) × (w.acts ≡ (
        if answered
        then ((before ++ committed 500 ∷ []) ++ closed ∷ []) ++ finished ∷ []
        else before))

  internal_setup-acts : (w : World S) → (internal_setup host w).1.acts ≡ w.acts
  unfolding internal_setup
  internal_setup-acts w =
      and_next-keeps (λ (v : World S). v.acts ≡ w.acts) _ _ refl
        λ v p. and_next-keeps (λ (v : World S). v.acts ≡ w.acts) _ _ p λ v p. p

  on_internal-InternalActs :
      (before : List Act) (a : Result (Unit {0}) (Unit {0}) × World S)
      → a.1.acts ≡ before
      → InternalActs before (on_internal host a)
  unfolding on_internal InternalActs commit_internal act
  on_internal-InternalActs before (ok _, w) h =
      (true, ap (λ x. ((x ++ committed 500 ∷ []) ++ closed ∷ []) ++ finished ∷ []) h)
  on_internal-InternalActs before (err _, w) h = (false, h)

  pub send_internal_error-InternalActs :
      (w : World S) → InternalActs w.acts (send_internal_error host w)
  unfolding send_internal_error
  send_internal_error-InternalActs w = on_internal-InternalActs w.acts _ (internal_setup-acts _)

  pub refused-IsSent :
      (status : ℕ) (before : List Act) (e : HandlerError X C) (w : World S)
      → InternalActs before w
      → IsSent status before (err e, act (reported 500 0 false (codes "response_setup")) w)
  unfolding InternalActs act
  refused-IsSent status before e w (true, h) = replaced e _ (
      ap (λ x. x ++ reported 500 0 false (codes "response_setup") ∷ []) h
      ∙ appended_four before _ _ _ _)
  refused-IsSent status before e w (false, h) =
      refused e _ (ap (λ x. x ++ reported 500 0 false (codes "response_setup") ∷ []) h)

  pub conclude-IsSent :
      (status n : ℕ) (before : List Act) (result : Result (Unit {0}) (HandlerError X C))
      (answer : Result (Unit {0}) C × World S)
      → answer.1.acts ≡ ((before ++ committed status ∷ []) ++ closed ∷ []) ++ finished ∷ []
      → IsSent status before (conclude host status n result answer)
  unfolding conclude act
  conclude-IsSent status n before (err e) (a, w) h = broken e n _ (
      ap (λ x. x ++ reported status n (is_cancellation e) (error_class e) ∷ []) h
      ∙ appended_four before _ _ _ _)
  conclude-IsSent status n before (ok _) (ok _, w) h =
      sent n _ (
        ap (λ x. x ++ reported status n false (codes "none") ∷ []) h ∙ appended_four before _ _ _ _)
  conclude-IsSent status n before (ok _) (err c, w) h = unfinished c n _ (
      ap (λ x. x ++ reported status n false (codes "response_finish") ∷ []) h
      ∙ appended_four before _ _ _ _)
