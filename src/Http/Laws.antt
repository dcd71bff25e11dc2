-- ===== src/Http/Laws.antt =====
-- Consequences of the laws of header maps.
use leptos_wasi.Prelude.{
  ◌≡◌, ◌≢◌, refl, sym, subst, ◌∙◌, true, false, not, List, [], ◌∷◌, if◌then◌else◌, is_empty,
  Bool-cases, inl, inr,
}
use leptos_wasi.Std.Str.{Bytes, bytes_eq}
use leptos_wasi.Std.Str.Laws.{bytes_eq_iff}
use leptos_wasi.Http.{HeaderName, Http, IsLawful, insert_if_absent}

pub bytes_eq_refl : (s : Bytes) → bytes_eq s s ≡ true
bytes_eq_refl s = (bytes_eq_iff s s).1 refl

pub bytes_eq-false : (a b : Bytes) → a ≢ b → bytes_eq a b ≡ false
bytes_eq-false a b h = elim (Bool-cases (bytes_eq a b)) [
  | inl e ↦ absurd (h ((bytes_eq_iff a b).0 e))
  | inr e ↦ e
]

abbrev pub or_else : {A : Type 0} → List A → List A → List A
or_else [] ys = ys
or_else (x ∷ xs) ys = x ∷ xs

pub or_else-nil : {A : Type 0} (xs : List A) → or_else xs [] ≡ xs
or_else-nil [] = refl
or_else-nil (x ∷ xs) = refl

pub or_else_assoc :
    {A : Type 0} (xs ys zs : List A) → or_else (or_else xs ys) zs ≡ or_else xs (or_else ys zs)
or_else_assoc [] ys zs = refl
or_else_assoc (x ∷ xs) ys zs = refl

module _ {H Value : Type 0} (http : Http H Value) (laws : IsLawful http) where
  pub get_all-insert_same :
      (name : HeaderName) (value : Value) (headers : H)
      → http.get_all name (http.insert name value headers) ≡ value ∷ []
  get_all-insert_same name value headers =
      laws.get_all-insert name name value headers ∙ rw (bytes_eq_refl name) refl

  pub get_all-insert_other :
      (name n : HeaderName) (value : Value) (headers : H)
      → bytes_eq name n ≡ false
      → http.get_all name (http.insert n value headers) ≡ http.get_all name headers
  get_all-insert_other name n value headers h = laws.get_all-insert name n value headers ∙ rw h refl

  -- The values of the name are kept if there are any, and are the one inserted if there are none.
  pub get_all-insert_if_absent :
      (name : HeaderName) (value : Value) (headers : H)
      → http.get_all name (insert_if_absent http name value headers)
        ≡ or_else (http.get_all name headers) (value ∷ [])
  unfolding insert_if_absent
  get_all-insert_if_absent name value headers = go (http.get_all name headers) refl
    where
      go :
          (old : List Value)
          → http.get_all name headers ≡ old
          → http.get_all name
              (if not (not (is_empty old)) then http.insert name value headers else headers)
            ≡ or_else old (value ∷ [])
      go [] e = get_all-insert_same name value headers
      go (v ∷ vs) e = e

  pub get_all-insert_if_absent_other :
      (name n : HeaderName) (value : Value) (headers : H)
      → bytes_eq name n ≡ false
      → http.get_all name (insert_if_absent http n value headers) ≡ http.get_all name headers
  unfolding insert_if_absent
  get_all-insert_if_absent_other name n value headers h =
      elim (Bool-cases (is_empty (http.get_all n headers))) [
        | inl e ↦ rw e (get_all-insert_other name n value headers h)
        | inr e ↦ rw e refl
      ]

  -- The two together, for any name.
  pub get_all-insert_if_absent_any :
      (name n : HeaderName) (value : Value) (headers : H)
      → http.get_all name (insert_if_absent http n value headers)
        ≡ or_else (http.get_all name headers) (if bytes_eq name n then value ∷ [] else [])
  get_all-insert_if_absent_any name n value headers = elim (Bool-cases (bytes_eq name n)) [
    | inl e ↦ rw e (
        subst
          (λ x.
            http.get_all name (insert_if_absent http x value headers)
            ≡ or_else (http.get_all name headers) (value ∷ []))
          ((bytes_eq_iff name n).0 e) (get_all-insert_if_absent name value headers))
    | inr e ↦ rw e (
        get_all-insert_if_absent_other name n value headers e
        ∙ sym (or_else-nil (http.get_all name headers)))
  ]
