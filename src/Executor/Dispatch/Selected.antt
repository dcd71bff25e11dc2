-- ===== src/Executor/Dispatch/Selected.antt =====
-- The flags that `dispatch_ready` computes from the host's list of ready indices, read against the
-- list itself: duplicates, any order and indices beyond the end included.
use leptos_wasi.Prelude.{
  ℕ, zero, suc, ◌+◌, ◌<◌, Bool, true, false, ◌||◌, ◌≡◌, refl, ap, sym, ◌∙◌, List, [], ◌∷◌, arith,
  set, length, All, ◌==◌, if◌then◌else◌,
}
use leptos_wasi.Executor.Dispatch.{unset, set_flags}

-- Whether the host reported the index.
abbrev pub elem : ℕ → List ℕ → Bool
elem i [] = false
elem i (j ∷ js) = i == j || elem i js

-- The flags raised at the positions that are reported, the list starting at position `k`.
abbrev pub mark : List ℕ → ℕ → List Bool → List Bool
mark reported k [] = []
mark reported k (b ∷ bs) = (b || elem k reported) ∷ mark reported (suc k) bs

mark_nil : (k : ℕ) (bs : List Bool) → mark [] k bs ≡ bs
mark_nil k [] = refl
mark_nil k (true ∷ bs) = ap (◌∷◌ true) (mark_nil (suc k) bs)
mark_nil k (false ∷ bs) = ap (◌∷◌ false) (mark_nil (suc k) bs)

mark_below : (is : List ℕ) (i k : ℕ) (bs : List Bool) → i < k → mark (i ∷ is) k bs ≡ mark is k bs
mark_below is i k [] h = refl
mark_below is i k (b ∷ bs) h = ground (arith, mark_below is i (suc k) bs)

mark-set :
    (is : List ℕ) (i j k : ℕ) (bs : List Bool)
    → i ≡ k + j
    → mark is k (set bs j true) ≡ mark (i ∷ is) k bs
mark-set is i j k [] e = refl
mark-set is i zero k (b ∷ bs) e = ground (arith, mark_below is i (suc k) bs)
mark-set is i (suc j) k (b ∷ bs) e = ground (arith, mark-set is i j (suc k) bs)

pub set_flags-mark : (is : List ℕ) (bs : List Bool) → set_flags is bs ≡ mark is 0 bs
unfolding set_flags
set_flags-mark [] bs = sym (mark_nil 0 bs)
set_flags-mark (i ∷ is) bs = set_flags-mark is (set bs i true) ∙ mark-set is i i 0 bs (omega arith)

-- The elements at the reported positions, and those at the others.
module _ {ℓ} {A : Type ℓ} where
  abbrev pub selected : List ℕ → ℕ → List A → List A
  selected reported k [] = []
  selected reported k (x ∷ xs) =
      let rest = selected reported (suc k) xs in if elem k reported then x ∷ rest else rest

  abbrev pub remaining : List ℕ → ℕ → List A → List A
  remaining reported k [] = []
  remaining reported k (x ∷ xs) =
      let rest = remaining reported (suc k) xs in if elem k reported then rest else x ∷ rest

  -- The elements with a raised flag, and those with a lowered one.
  abbrev pub chosen : List Bool → List A → List A
  chosen bs [] = []
  chosen [] (x ∷ xs) = []
  chosen (b ∷ bs) (x ∷ xs) = let rest = chosen bs xs in if b then x ∷ rest else rest

  abbrev pub unchosen : List Bool → List A → List A
  unchosen bs [] = []
  unchosen [] (x ∷ xs) = []
  unchosen (b ∷ bs) (x ∷ xs) = let rest = unchosen bs xs in if b then rest else x ∷ rest

  pub chosen-mark :
      (is : List ℕ) (k : ℕ) (xs : List A)
      → chosen (mark is k (unset (length xs))) xs ≡ selected is k xs
  chosen-mark is k [] = refl
  chosen-mark is k (x ∷ xs) = ground (arith, chosen-mark is (suc k) xs)

  pub unchosen-mark :
      (is : List ℕ) (k : ℕ) (xs : List A)
      → unchosen (mark is k (unset (length xs))) xs ≡ remaining is k xs
  unchosen-mark is k [] = refl
  unchosen-mark is k (x ∷ xs) = ground (arith, unchosen-mark is (suc k) xs)

pub length-mark : (is : List ℕ) (k : ℕ) (bs : List Bool) → length (mark is k bs) ≡ length bs
length-mark is k [] = refl
length-mark is k (b ∷ bs) = ap suc (length-mark is (suc k) bs)

pub length-unset : (n : ℕ) → length (unset n) ≡ n
length-unset zero = refl
length-unset (suc n) = ap suc (length-unset n)

module _ {ℓ κ} {A : Type ℓ} (P : A → Type κ) where
  pub All-chosen : (bs : List Bool) (xs : List A) → All P xs → All P (chosen bs xs)
  All-chosen bs [] h = tt
  All-chosen [] (x ∷ xs) h = tt
  All-chosen (true ∷ bs) (x ∷ xs) h = (h.0, All-chosen bs xs h.1)
  All-chosen (false ∷ bs) (x ∷ xs) h = All-chosen bs xs h.1

  pub All-unchosen : (bs : List Bool) (xs : List A) → All P xs → All P (unchosen bs xs)
  All-unchosen bs [] h = tt
  All-unchosen [] (x ∷ xs) h = tt
  All-unchosen (true ∷ bs) (x ∷ xs) h = All-unchosen bs xs h.1
  All-unchosen (false ∷ bs) (x ∷ xs) h = (h.0, All-unchosen bs xs h.1)
