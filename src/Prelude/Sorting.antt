-- ===== src/Prelude/Sorting.antt =====
-- sort.SliceStable, by the test of which of two elements is less.
use Prim.Native.Nat.{suc}
use mathlib.Core.Path.{◌≡◌, refl, ap, sym, ◌∙◌}
use mathlib.Core.Logic.{inl, inr}
use mathlib.Core.Bool.{Bool, true, false}
use mathlib.Core.List.{List, [], ◌∷◌, ◌++◌, Perm}
use mathlib.Core.List.Perm
use den_scout.Prelude.Tests.{Bool-cases}
use den_scout.Prelude.Lists.{length}
use den_scout.Prelude.Keep.{Each}

module _ {ℓ} {A : Type ℓ} (less : A → A → Bool) where
  -- An element goes behind those that are less, and in front of all others.
  unfoldable pub place_by : A → List A → List A
  place_by a [] = a ∷ []
  place_by a (b ∷ bs) = elim (less b a) [ true ↦ b ∷ place_by a bs | false ↦ a ∷ b ∷ bs ]

  unfoldable pub sort_by : List A → List A
  unfolding place_by
  sort_by [] = []
  sort_by (a ∷ rest) = place_by a (sort_by rest)

  place_by-Perm : (a : A) (bs : List A) → Perm (place_by a bs) (a ∷ bs)
  unfolding place_by
  place_by-Perm a [] = Perm.rfl
  place_by-Perm a (b ∷ bs) = elim (Bool-cases (less b a)) [
    | inl e ↦ rw (e, place_by) (Perm.trans (Perm.cons b (place_by-Perm a bs)) (Perm.swap a b bs))
    | inr e ↦ rw (e, place_by) Perm.rfl
  ]

  pub sort_by-Perm : (l : List A) → Perm (sort_by l) l
  unfolding sort_by
  sort_by-Perm [] = Perm.rfl
  sort_by-Perm (a ∷ rest) =
      Perm.trans (place_by-Perm a (sort_by rest)) (Perm.cons a (sort_by-Perm rest))

  length-place_by : (a : A) (bs : List A) → length (place_by a bs) ≡ suc (length bs)
  unfolding place_by
  length-place_by a [] = refl
  length-place_by a (b ∷ bs) = elim (Bool-cases (less b a)) [
    | inl e ↦ rw (e, place_by) (ap suc (length-place_by a bs))
    | inr e ↦ rw (e, place_by) refl
  ]

  pub length-sort_by : (l : List A) → length (sort_by l) ≡ length l
  unfolding sort_by
  length-sort_by [] = refl
  length-sort_by (a ∷ rest) = length-place_by a (sort_by rest) ∙ ap suc (length-sort_by rest)

  module _ {κ} (P : A → Type κ) where
    abbrev pub AreAll : List A → Type κ
    AreAll [] = Unit
    AreAll (a ∷ rest) = P a × AreAll rest

    place_by-AreAll : (a : A) (l : List A) → P a → AreAll l → AreAll (place_by a l)
    unfolding place_by
    place_by-AreAll a [] v w = (v, tt)
    place_by-AreAll a (b ∷ l) v (u, w) = elim (Bool-cases (less b a)) [
      | inl e ↦ rw (e, place_by) (u, place_by-AreAll a l v w)
      | inr e ↦ rw (e, place_by) (v, (u, w))
    ]

    pub sort_by-AreAll : (l : List A) → AreAll l → AreAll (sort_by l)
    unfolding sort_by
    sort_by-AreAll [] v = tt
    sort_by-AreAll (a ∷ l) (v, w) = place_by-AreAll a (sort_by l) v (sort_by-AreAll l w)

  -- No element of the list is less than the given one.
  abbrev pub IsLeast : A → List A → Type 0
  IsLeast a [] = Unit
  IsLeast a (b ∷ bs) = (less b a ≡ false) × IsLeast a bs

  abbrev pub IsSortedBy : List A → Type 0
  IsSortedBy [] = Unit
  IsSortedBy (a ∷ rest) = IsLeast a rest × IsSortedBy rest

  module _ (asym : (a b : A) → less b a ≡ true → less a b ≡ false)
      (through : (a b c : A) → less b a ≡ false → less c b ≡ false → less c a ≡ false) where
    IsLeast-through : (a b : A) (bs : List A) → less b a ≡ false → IsLeast b bs → IsLeast a bs
    IsLeast-through a b [] h v = tt
    IsLeast-through a b (c ∷ cs) h (k, v) = (through a b c h k, IsLeast-through a b cs h v)

    place_by-IsLeast :
        (a b : A) (bs : List A) → less a b ≡ false → IsLeast b bs → IsLeast b (place_by a bs)
    unfolding place_by
    place_by-IsLeast a b [] h v = (h, tt)
    place_by-IsLeast a b (c ∷ cs) h (k, v) = elim (Bool-cases (less c a)) [
      | inl e ↦ rw (e, place_by) (k, place_by-IsLeast a b cs h v)
      | inr e ↦ rw (e, place_by) (h, (k, v))
    ]

    place_by-IsSortedBy : (a : A) (bs : List A) → IsSortedBy bs → IsSortedBy (place_by a bs)
    unfolding place_by
    place_by-IsSortedBy a [] v = (tt, tt)
    place_by-IsSortedBy a (b ∷ bs) (first, v) = elim (Bool-cases (less b a)) [
      | inl e ↦
          rw (e, place_by) (place_by-IsLeast a b bs (asym a b e) first, place_by-IsSortedBy a bs v)
      | inr e ↦ rw (e, place_by) ((e, IsLeast-through a b bs e first), (first, v))
    ]

    pub sort_by-IsSortedBy : (l : List A) → IsSortedBy (sort_by l)
    unfolding sort_by
    sort_by-IsSortedBy [] = tt
    sort_by-IsSortedBy (a ∷ rest) = place_by-IsSortedBy a (sort_by rest) (sort_by-IsSortedBy rest)

  -- An element goes in front of a list that has nothing less, and behind what is less.
  pub place_by_first : (a : A) (l : List A) → Each (λ b. less b a ≡ false) l → place_by a l ≡ a ∷ l
  unfolding place_by
  place_by_first a [] h = refl
  place_by_first a (b ∷ l) h = rw (h.0, place_by) refl

  pub place_by-append :
      (a : A) (front back : List A)
      → Each (λ b. less b a ≡ true) front
      → place_by a (front ++ back) ≡ front ++ place_by a back
  unfolding place_by
  place_by-append a [] back h = refl
  place_by-append a (b ∷ front) back h =
      rw (h.0, place_by) (ap (λ l. b ∷ l) (place_by-append a front back h.1))

-- Two tests that agree about an element place it alike.
pub place_by-agree {ℓ} :
    {A : Type ℓ} (less less' : A → A → Bool) (a : A) (l : List A)
    → Each (λ b. less b a ≡ less' b a) l
    → place_by less a l ≡ place_by less' a l
unfolding place_by
place_by-agree less less' a [] h = refl
place_by-agree less less' a (b ∷ l) h = elim (Bool-cases (less b a)) [
  | inl e ↦ rw (e, sym h.0 ∙ e, place_by) (ap (λ l. b ∷ l) (place_by-agree less less' a l h.1))
  | inr e ↦ rw (e, sym h.0 ∙ e, place_by) refl
]
