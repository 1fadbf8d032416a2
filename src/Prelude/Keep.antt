-- ===== src/Prelude/Keep.antt =====
-- What holds of each element, and of the elements that a test keeps.
use mathlib.Core.Path.{◌≡◌, refl, ap, sym, ◌∙◌}
use mathlib.Core.Logic.{◌⊎◌, inl, inr}
use mathlib.Core.List.{List, [], ◌∷◌, ◌++◌}
use mathlib.Core.Bool.{Bool, true, false}
use native.Mathlib.Omega.{arith}
use den_scout.Prelude.Tests.{Bool-cases}
use den_scout.Prelude.Lists.{keep}

module _ {ℓ} {A : Type ℓ} where
  abbrev pub Each {κ} : (A → Type κ) → List A → Type κ
  Each P [] = Unit
  Each P (x ∷ xs) = P x × Each P xs

  pub Each-append {κ} :
      (P : A → Type κ) (xs ys : List A) → Each P xs → Each P ys → Each P (xs ++ ys)
  Each-append P [] ys h k = k
  Each-append P (x ∷ xs) ys h k = (h.0, Each-append P xs ys h.1 k)

  pub Each-map {κ λ'} :
      (P : A → Type κ) (Q : A → Type λ')
      → ((x : A) → P x → Q x)
      → (xs : List A) → Each P xs
      → Each Q xs
  Each-map P Q f [] h = tt
  Each-map P Q f (x ∷ xs) h = (f x h.0, Each-map P Q f xs h.1)

  pub keep_yes : (p : A → Bool) (x : A) (xs : List A) → p x ≡ true → keep p (x ∷ xs) ≡ x ∷ keep p xs
  keep_yes p x xs e = rw (e, keep) refl

  pub keep_no : (p : A → Bool) (x : A) (xs : List A) → p x ≡ false → keep p (x ∷ xs) ≡ keep p xs
  keep_no p x xs e = rw (e, keep) refl

  pub Each-keep {κ} : (P : A → Type κ) (p : A → Bool) (xs : List A) → Each P xs → Each P (keep p xs)
  Each-keep P p [] h = tt
  Each-keep P p (x ∷ xs) h = elim (Bool-cases (p x)) [
    | inl e ↦ rw (keep_yes p x xs e) (h.0, Each-keep P p xs h.1)
    | inr e ↦ rw (keep_no p x xs e) (Each-keep P p xs h.1)
  ]

  pub keep-Each : (p : A → Bool) (xs : List A) → Each (λ (x : A). p x ≡ true) (keep p xs)
  keep-Each p [] = tt
  keep-Each p (x ∷ xs) = elim (Bool-cases (p x)) [
    | inl e ↦ rw (keep_yes p x xs e) (e, keep-Each p xs)
    | inr e ↦ rw (keep_no p x xs e) (keep-Each p xs)
  ]

  -- A test that no element passes keeps none, and one that every element passes keeps them all.
  pub keep-none : (p : A → Bool) (xs : List A) → Each (λ (x : A). p x ≡ false) xs → keep p xs ≡ []
  keep-none p [] h = refl
  keep-none p (x ∷ xs) h = keep_no p x xs h.0 ∙ keep-none p xs h.1

  pub keep-all : (p : A → Bool) (xs : List A) → Each (λ (x : A). p x ≡ true) xs → keep p xs ≡ xs
  keep-all p [] h = refl
  keep-all p (x ∷ xs) h = keep_yes p x xs h.0 ∙ ap (λ l. x ∷ l) (keep-all p xs h.1)

  -- A test that follows from the other one changes nothing after it.
  pub keep-keep :
      (p q : A → Bool)
      → ((x : A) → p x ≡ true → q x ≡ true)
      → (xs : List A) → keep p (keep q xs) ≡ keep p xs
  keep-keep p q f [] = refl
  keep-keep p q f (x ∷ xs) = elim (Bool-cases (p x)) [
    | inl e ↦
        rw (keep_yes q x xs (f x e), keep_yes p x xs e, keep_yes p x (keep q xs) e)
          (ap (λ l. x ∷ l) (keep-keep p q f xs))
    | inr e ↦ elim (Bool-cases (q x)) [
      | inl e' ↦
          rw (keep_yes q x xs e', keep_no p x xs e, keep_no p x (keep q xs) e) (keep-keep p q f xs)
      | inr e' ↦ rw (keep_no q x xs e', keep_no p x xs e) (keep-keep p q f xs)
    ]
  ]

  -- Tests that agree on the elements keep the same ones.
  pub keep-agree :
      (p q : A → Bool) (xs : List A) → Each (λ (x : A). p x ≡ q x) xs → keep p xs ≡ keep q xs
  keep-agree p q [] h = refl
  keep-agree p q (x ∷ xs) h = elim (Bool-cases (p x)) [
    | inl e ↦
        keep_yes p x xs e
        ∙ ap (λ l. x ∷ l) (keep-agree p q xs h.1)
        ∙ sym (keep_yes q x xs (sym h.0 ∙ e))
    | inr e ↦ keep_no p x xs e ∙ keep-agree p q xs h.1 ∙ sym (keep_no q x xs (sym h.0 ∙ e))
  ]

  pub everywhere {κ} : {P : A → Type κ} → ((x : A) → P x) → (xs : List A) → Each P xs
  everywhere f [] = tt
  everywhere f (x ∷ xs) = (f x, everywhere f xs)

module _ {ℓ} {A : Type ℓ} where
  pub data IsIn (a : A) : List A → Type ℓ where
    here : {xs : List A} → IsIn a (a ∷ xs)
    there : {x : A} {xs : List A} → IsIn a xs → IsIn a (x ∷ xs)

  pub IsIn-cons : {a x : A} {xs : List A} → IsIn a (x ∷ xs) → (a ≡ x) ⊎ IsIn a xs
  IsIn-cons here = inl refl
  IsIn-cons (there h) = inr h

  pub IsIn-keep :
      {a : A} (p : A → Bool) (xs : List A) → IsIn a (keep p xs) → IsIn a xs × (p a ≡ true)
  IsIn-keep p [] h = elim h [ ]
  IsIn-keep p (x ∷ xs) h = elim (Bool-cases (p x)) [
    | inl e ↦ elim (IsIn-cons (rw (keep_yes p x xs e) at h)) [
      | inl same ↦ rw same (here, e)
      | inr later ↦ let (found, k) = IsIn-keep p xs later in (there found, k)
    ]
    | inr e ↦ let (found, k) = IsIn-keep p xs (rw (keep_no p x xs e) at h) in (there found, k)
  ]

  -- What holds of the elements that a test keeps holds of each that passes it.
  pub Each-unkeep {κ} :
      (P : A → Type κ) (p : A → Bool) (xs : List A)
      → Each P (keep p xs)
      → Each (λ (x : A). p x ≡ true → P x) xs
  Each-unkeep P p [] h = tt
  Each-unkeep P p (x ∷ xs) h = elim (Bool-cases (p x)) [
    | inl e ↦
        let h' : Each P (x ∷ keep p xs) = rw (keep_yes p x xs e) at h in
        (λ k. h'.0, Each-unkeep P p xs h'.1)
    | inr e ↦
        let h' : Each P (keep p xs) = rw (keep_no p x xs e) at h in
        (λ k. ground (arith, e, k), Each-unkeep P p xs h')
  ]

  pub keep-nil : (p : A → Bool) (xs : List A) → keep p xs ≡ [] → Each (λ (x : A). p x ≡ false) xs
  keep-nil p [] h = tt
  keep-nil p (x ∷ xs) h = elim (Bool-cases (p x)) [
    | inl e ↦ ground (arith, rw (keep_yes p x xs e) at h)
    | inr e ↦ (e, keep-nil p xs (rw (keep_no p x xs e) at h))
  ]
