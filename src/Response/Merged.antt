-- ===== src/Response/Merged.antt =====
-- What a response has of each header after the application's own are merged into it.
use leptos_wasi.Prelude.{
  ℕ, ◌≡◌, refl, sym, ap, ◌∙◌, subst, Bool, true, false, List, [], ◌∷◌, ◌++◌, Option, none, some,
  if◌then◌else◌, Bool-cases, inl, inr,
}
use mathlib.Core.List.{append-nil, append_assoc}
use leptos_wasi.Std.Str.{bytes_eq}
use leptos_wasi.Std.Str.Laws.{bytes_eq_iff}
use leptos_wasi.Http.{HeaderName, Http, IsLawful, Response, named, values_of}
use leptos_wasi.Response.{
  ResponseParts, is_list_valued, override_status, extend_entries, extend_response,
}

-- The last of a list of values that starts with `v`.
abbrev pub last_of : {A : Type 0} → A → List A → List A
last_of v [] = v ∷ []
last_of v (w ∷ ws) = last_of w ws

-- The last of the new values, or all the old ones if there is none.
abbrev pub last_or : {A : Type 0} → List A → List A → List A
last_or old [] = old
last_or old (v ∷ vs) = last_of v vs

-- Lists are concatenated; of any other header the last new value replaces the old ones.
unfoldable pub merged : {A : Type 0} → Bool → List A → List A → List A
merged true old new = old ++ new
merged false old new = last_or old new

pub merged-nil : {A : Type 0} (is_list : Bool) (old : List A) → merged is_list old [] ≡ old
unfolding merged
merged-nil true old = append-nil old
merged-nil false old = refl

merged_step :
    {A : Type 0} (is_list : Bool) (old : List A) (v : A) (vs : List A)
    → merged is_list (if is_list then old ++ v ∷ [] else v ∷ []) vs ≡ merged is_list old (v ∷ vs)
unfolding merged
merged_step true old v vs = append_assoc old (v ∷ []) vs
merged_step false old v [] = refl
merged_step false old v (w ∷ ws) = refl

override_status_twice :
    (o : Option ℕ) (s : ℕ) → override_status o (override_status o s) ≡ override_status o s
unfolding override_status
override_status_twice none s = refl
override_status_twice (some code) s = refl

module _ {H Value : Type 0} (types : Http H Value) (laws : IsLawful types) where
  -- One item, seen from the name that it has, and from another.
  put_same :
      (name n : HeaderName) (value : Value) (dest : H)
      → bytes_eq name n ≡ true
      → types.get_all name
          (if is_list_valued n then types.append n value dest else types.insert n value dest)
        ≡ (if is_list_valued name then types.get_all name dest ++ value ∷ [] else value ∷ [])
  put_same name n value dest h =
      let same : name ≡ n = (bytes_eq_iff name n).0 h in
      subst
        (λ x.
          types.get_all name
            (if is_list_valued x then types.append n value dest else types.insert n value dest)
          ≡ (if is_list_valued name then types.get_all name dest ++ value ∷ [] else value ∷ []))
        same
        (elim (Bool-cases (is_list_valued name)) [
          | inl e ↦ rw e (laws.get_all-append name n value dest ∙ rw h refl)
          | inr e ↦ rw e (laws.get_all-insert name n value dest ∙ rw h refl)
        ])

  put_other :
      (name n : HeaderName) (value : Value) (dest : H)
      → bytes_eq name n ≡ false
      → types.get_all name
          (if is_list_valued n then types.append n value dest else types.insert n value dest)
        ≡ types.get_all name dest
  put_other name n value dest h = elim (Bool-cases (is_list_valued n)) [
    | inl e ↦ rw e (laws.get_all-append name n value dest ∙ rw h refl)
    | inr e ↦ rw e (laws.get_all-insert name n value dest ∙ rw h refl)
  ]

  get_all-extend_entries :
      (name : HeaderName) (entries : List (HeaderName × Value)) (dest : H)
      → types.get_all name (extend_entries types entries dest)
        ≡ merged (is_list_valued name) (types.get_all name dest) (values_of name entries)
  unfolding extend_entries values_of
  get_all-extend_entries name [] dest =
      sym (merged-nil (is_list_valued name) (types.get_all name dest))
  get_all-extend_entries name ((n, value) ∷ entries) dest = elim (Bool-cases (bytes_eq name n)) [
    | inl h ↦
        get_all-extend_entries name entries
          (if is_list_valued n then types.append n value dest else types.insert n value dest)
        ∙ ap (λ x. merged (is_list_valued name) x (values_of name entries))
            (put_same name n value dest h)
        ∙ rw h (
            merged_step (is_list_valued name) (types.get_all name dest) value
              (values_of name entries))
    | inr h ↦
        get_all-extend_entries name entries
          (if is_list_valued n then types.append n value dest else types.insert n value dest)
        ∙ ap (λ x. merged (is_list_valued name) x (values_of name entries))
            (put_other name n value dest h)
        ∙ rw h refl
  ]

  -- Of each header, the response has its own values followed by those that the application set, if
  -- the header is a list; of any other, the last value that the application set, or its own values if
  -- it set none.
  pub extend_response-get_all :
      {Stream : Type 0} (name : HeaderName) (opt : ResponseParts H) (response : Response H Stream)
      → types.get_all name (extend_response types opt response).1.headers
        ≡ merged
            (is_list_valued name)
            (types.get_all name response.headers)
            (types.get_all name opt.headers)
  unfolding extend_response
  extend_response-get_all name opt response =
      get_all-extend_entries name (named none (types.into_iter opt.headers)) response.headers
      ∙ ap (merged (is_list_valued name) (types.get_all name response.headers))
          (laws.get_all-into_iter name opt.headers)

  -- Merging what was left behind changes nothing more: no cookie is sent twice. A response to a
  -- rendered page is merged twice, by `from_app` and by `render`.
  pub extend_response_twice :
      {Stream : Type 0} (name : HeaderName) (opt : ResponseParts H) (response : Response H Stream)
      → (types.get_all name
            (extend_response types
              (extend_response types opt response).0
              (extend_response types opt response).1).1.headers
          ≡ types.get_all name (extend_response types opt response).1.headers)
        × ((extend_response types
              (extend_response types opt response).0
              (extend_response types opt response).1).1.status
            ≡ (extend_response types opt response).1.status)
  extend_response_twice name opt response = (
    extend_response-get_all name (extend_response types opt response).0
          (extend_response types opt response).1
        ∙ ap
            (merged (is_list_valued name)
              (types.get_all name (extend_response types opt response).1.headers))
            (nothing_left name)
        ∙ merged-nil (is_list_valued name) _,
    unfold extend_response in override_status_twice opt.status response.status,
  )
    where
      nothing_left :
          (n : HeaderName) → types.get_all n (extend_response types opt response).0.headers ≡ []
      nothing_left n = unfold extend_response in laws.get_all-empty n
