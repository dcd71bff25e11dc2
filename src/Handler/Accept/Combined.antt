-- ===== src/Handler/Accept/Combined.antt =====
-- Repeated `Accept` headers count like one header with their values behind commas.
use leptos_wasi.Prelude.{
  ◌≡◌, refl, sym, ap, ◌∙◌, Bool, List, [], ◌∷◌, ◌++◌, Option, none, some, any,
}
use mathlib.Core.List.{append_assoc}
use leptos_wasi.Std.Str.{Bytes, split}
use leptos_wasi.Std.Str.Laws.{split-append_sep}
use leptos_wasi.Handler.Accept.{range_accepts, media_ranges, texts_accept}

media_ranges-append :
    (xs ys : List (Option Bytes)) → media_ranges (xs ++ ys) ≡ media_ranges xs ++ media_ranges ys
unfolding media_ranges
media_ranges-append [] ys = refl
media_ranges-append (none ∷ xs) ys = media_ranges-append xs ys
media_ranges-append (some text ∷ xs) ys =
    ap (λ x. split b',' text ++ x) (media_ranges-append xs ys)
    ∙ sym (append_assoc (split b',' text) (media_ranges xs) (media_ranges ys))

module _ {F : Type 0} (parse_f32 : Bytes → Option F) (positive : F → Bool) where
  -- Two `Accept` values, among others before and after them, are read like one value with a comma
  -- between them.
  pub texts_accept-combined :
      (before after : List (Option Bytes)) (a b : Bytes)
      → texts_accept parse_f32 positive (before ++ (some a ∷ some b ∷ after))
        ≡ texts_accept parse_f32 positive (before ++ (some (a ++ b',' ∷ b) ∷ after))
  unfolding texts_accept
  texts_accept-combined before after a b = ap (any (range_accepts parse_f32 positive)) (
      media_ranges-append before (some a ∷ some b ∷ after)
      ∙ ap (λ x. media_ranges before ++ x) joined
      ∙ sym (media_ranges-append before (some (a ++ b',' ∷ b) ∷ after)))
    where
      joined : media_ranges (some a ∷ some b ∷ after) ≡ media_ranges (some (a ++ b',' ∷ b) ∷ after)
      joined =
          unfold media_ranges in
          (sym (append_assoc (split b',' a) (split b',' b) (media_ranges after))
            ∙ ap (λ x. x ++ media_ranges after) (sym (split-append_sep b',' a b)))
