-- ===== src/Std/Str/Laws.antt =====
-- Laws of `split`, byte-string equality and prefixes.
use mathlib.Core.List.{append-nil}
use leptos_wasi.Prelude.{
  ℕ, true, false, ◌≡◌, ◌≢◌, ◌↔◌, refl, ap, sym, ◌∙◌, List, [], ◌∷◌, ◌++◌, arith, ◌==◌, All,
  All-append, Bool-cases, inl, inr, ==_iff,
}
use leptos_wasi.Std.Str.{Bytes, bytes_eq, split, cons_head, strip_prefix, contains}

pub bytes_eq_iff : (xs ys : Bytes) → (bytes_eq xs ys ≡ true) ↔ (xs ≡ ys)
unfolding bytes_eq
bytes_eq_iff [] [] = ground arith
bytes_eq_iff [] (y ∷ ys) = ground arith
bytes_eq_iff (x ∷ xs) [] = ground arith
bytes_eq_iff (x ∷ xs) (y ∷ ys) = ground (arith, bytes_eq_iff xs ys)

-- No byte of the text is the separator.
abbrev pub Free : ℕ → Bytes → Type 0
Free sep = All (λ b. b ≢ sep)

-- The parts behind the first, each behind a separator.
unfoldable pub suffixes : ℕ → List Bytes → Bytes
suffixes sep [] = []
suffixes sep (p ∷ ps) = sep ∷ (p ++ suffixes sep ps)

-- `[T]::join`: the parts with the separator between them.
unfoldable pub join : ℕ → List Bytes → Bytes
unfolding suffixes
join sep [] = []
join sep (p ∷ ps) = p ++ suffixes sep ps

All-cons_head :
    (P : Bytes → Type 0) (c : ℕ) (xs : List Bytes)
    → All P xs
    → ((p : Bytes) → P p → P (c ∷ p))
    → P (c ∷ [])
    → All P (cons_head c xs)
All-cons_head P c [] h step one = (one, tt)
All-cons_head P c (x ∷ xs) h step one = (step x h.0, h.1)

-- The parts hold no separator.
pub split-Free : (sep : ℕ) (s : Bytes) → All (Free sep) (split sep s)
unfolding split
split-Free sep [] = (tt, tt)
split-Free sep (c ∷ cs) = elim (Bool-cases (c == sep)) [
  | inl e ↦ rw e (tt, split-Free sep cs)
  | inr e ↦ rw e (
      All-cons_head (Free sep) c (split sep cs) (split-Free sep cs) (λ p h. (ground arith, h))
        (ground arith, tt))
]

-- What holds of every byte of a text holds of every byte of its parts.
pub split-All : (P : ℕ → Type 0) (sep : ℕ) (s : Bytes) → All P s → All (All P) (split sep s)
unfolding split
split-All P sep [] h = (tt, tt)
split-All P sep (c ∷ cs) h = elim (Bool-cases (c == sep)) [
  | inl e ↦ rw e (tt, split-All P sep cs h.1)
  | inr e ↦
      rw e (
        All-cons_head (All P) c (split sep cs) (split-All P sep cs h.1) (λ p k. (h.0, k)) (h.0, tt))
]

-- A text with no separator is its only part.
pub split-Free_self : (sep : ℕ) (s : Bytes) → Free sep s → split sep s ≡ s ∷ []
unfolding split
split-Free_self sep [] h = refl
split-Free_self sep (c ∷ cs) h = ground (arith, split-Free_self sep cs h.1)

pub split-append : (sep : ℕ) (s t : Bytes) → Free sep s → split sep (s ++ sep ∷ t) ≡ s ∷ split sep t
unfolding split
split-append sep [] t h = ground arith
split-append sep (c ∷ cs) t h = ground (arith, split-append sep cs t h.1)

split-suffixes :
    (sep : ℕ) (p : Bytes) (ps : List Bytes)
    → Free sep p
    → All (Free sep) ps
    → split sep (p ++ suffixes sep ps) ≡ p ∷ ps
unfolding suffixes
split-suffixes sep p [] h hs = rw append-nil (split-Free_self sep p h)
split-suffixes sep p (q ∷ ps) h hs =
    split-append sep p (q ++ suffixes sep ps) h ∙ ap (◌∷◌ p) (split-suffixes sep q ps hs.0 hs.1)

-- Splitting undoes joining.
pub split-join :
    (sep : ℕ) (p : Bytes) (ps : List Bytes)
    → All (Free sep) (p ∷ ps)
    → split sep (join sep (p ∷ ps)) ≡ p ∷ ps
unfolding join
split-join sep p ps h = split-suffixes sep p ps h.0 h.1

suffixes-All :
    (P : ℕ → Type 0) (sep : ℕ) (ps : List Bytes) → P sep → All (All P) ps → All P (suffixes sep ps)
unfolding suffixes
suffixes-All P sep [] k h = tt
suffixes-All P sep (p ∷ ps) k h = (k, All-append P p _ h.0 (suffixes-All P sep ps k h.1))

pub join-All :
    (P : ℕ → Type 0) (sep : ℕ) (ps : List Bytes) → P sep → All (All P) ps → All P (join sep ps)
unfolding join
join-All P sep [] k h = tt
join-All P sep (p ∷ ps) k h = All-append P p _ h.0 (suffixes-All P sep ps k h.1)

join-cons_head :
    (sep c : ℕ) (ps : List Bytes) → ps ≢ [] → join sep (cons_head c ps) ≡ c ∷ join sep ps
unfolding join
join-cons_head sep c [] h = absurd (h refl)
join-cons_head sep c (p ∷ ps) h = refl

pub split-ne-nil : (sep : ℕ) (s : Bytes) → split sep s ≢ []
unfolding split
split-ne-nil sep [] e = cc
split-ne-nil sep (c ∷ cs) e = ground arith

join-nil_cons : (sep : ℕ) (ps : List Bytes) → ps ≢ [] → join sep ([] ∷ ps) ≡ sep ∷ join sep ps
unfolding join suffixes
join-nil_cons sep [] h = absurd (h refl)
join-nil_cons sep (p ∷ ps) h = refl

-- Joining undoes splitting.
pub join-split : (sep : ℕ) (s : Bytes) → join sep (split sep s) ≡ s
unfolding split
join-split sep [] = unfold join suffixes in refl
join-split sep (c ∷ cs) = elim (Bool-cases (c == sep)) [
  | inl e ↦ rw e (
      join-nil_cons sep (split sep cs) (split-ne-nil sep cs)
      ∙ ap (◌∷◌ sep) (join-split sep cs)
      ∙ ap (λ x. x ∷ cs) (sym ((==_iff c sep).0 e)))
  | inr e ↦
      rw e
        (join-cons_head sep c (split sep cs) (split-ne-nil sep cs) ∙ ap (◌∷◌ c) (join-split sep cs))
]

-- A text with none of a byte does not contain it.
pub contains-Free : (sep : ℕ) (s : Bytes) → Free sep s → contains (sep ∷ []) s ≡ false
unfolding contains strip_prefix
contains-Free sep [] h = refl
contains-Free sep (c ∷ cs) h = ground (arith, contains-Free sep cs h.1)

pub Free-contains : (sep : ℕ) (s : Bytes) → contains (sep ∷ []) s ≡ false → Free sep s
unfolding contains strip_prefix
Free-contains sep [] h = tt
Free-contains sep (c ∷ cs) h = (ground arith, Free-contains sep cs (ground arith))

cons_head-append :
    (c : ℕ) (xs ys : List Bytes) → xs ≢ [] → cons_head c (xs ++ ys) ≡ cons_head c xs ++ ys
cons_head-append c [] ys h = absurd (h refl)
cons_head-append c (x ∷ xs) ys h = refl

-- The parts of a text with a separator in it are those before and those after.
pub split-append_sep :
    (sep : ℕ) (s t : Bytes) → split sep (s ++ sep ∷ t) ≡ split sep s ++ split sep t
unfolding split
split-append_sep sep [] t = ground arith
split-append_sep sep (c ∷ cs) t = elim (Bool-cases (c == sep)) [
  | inl e ↦ rw e (ap (λ x. [] ∷ x) (split-append_sep sep cs t))
  | inr e ↦ rw e (
      ap (cons_head c) (split-append_sep sep cs t)
      ∙ cons_head-append c (split sep cs) (split sep t) (split-ne-nil sep cs))
]
