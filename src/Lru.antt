-- ===== src/Lru.antt =====
-- The recency list that MemoryCache and linkMemo keep: container/list elements that a map indexes by
-- key. The list stands oldest first: its head is `ll.Back()`, and `PushFront` appends. The index is not a
-- field of its own, since an element is in the list exactly while the map holds its key: `find` reads it.
use den_scout.Prelude.{
  suc, ◌≡◌, refl, String, Option, none, some, List, [], ◌∷◌, ◌++◌, arith, length, ◌≢◌, ◌⊎◌, inl,
  inr, Option-cases, if◌then◌else◌, str_eq, str_eq_iff,
}

module _ {ℓ} {A : Type ℓ} (key : A → String) where
  -- `items[k]`.
  unfoldable pub find : String → List A → Option A
  find k [] = none
  find k (x ∷ xs) = if str_eq (key x) k then some x else find k xs

  -- `ll.Remove(el)` and `delete(items, k)` for the element under `k`.
  unfoldable pub erase : String → List A → List A
  erase k [] = []
  erase k (x ∷ xs) = if str_eq (key x) k then erase k xs else x ∷ erase k xs

  -- No key stands twice.
  abbrev pub Distinct : List A → Type ℓ
  Distinct [] = Unit
  Distinct (x ∷ xs) = (find (key x) xs ≡ none) × Distinct xs

  pub find-key : (k : String) (xs : List A) (x : A) → find k xs ≡ some x → key x ≡ k
  unfolding find
  find-key k [] x h = cc
  find-key k (y ∷ xs) x h = ground (arith, str_eq_iff (key y) k, find-key k xs x)

  pub find-append :
      (k : String) (xs ys : List A)
      → find k (xs ++ ys) ≡ elim (find k xs) [ none ↦ find k ys | some x ↦ some x ]
  unfolding find
  find-append k [] ys = refl
  find-append k (x ∷ xs) ys = ground (arith, find-append k xs ys)

  pub find-erase :
      (k j : String) (xs : List A) → find j (erase k xs) ≡ (if str_eq k j then none else find j xs)
  unfolding find erase
  find-erase k j [] = ground arith
  find-erase k j (x ∷ xs) =
      ground (arith, str_eq_iff k j, str_eq_iff (key x) k, str_eq_iff (key x) j, find-erase k j xs)

  pub erase-Distinct : (k : String) (xs : List A) → Distinct xs → Distinct (erase k xs)
  unfolding erase
  erase-Distinct k [] d = tt
  erase-Distinct k (x ∷ xs) d =
      ground (arith, str_eq_iff k (key x), find-erase k (key x) xs, erase-Distinct k xs d.1)

  pub erase-missing : (k : String) (xs : List A) → find k xs ≡ none → erase k xs ≡ xs
  unfolding find erase
  erase-missing k [] h = refl
  erase-missing k (x ∷ xs) h = ground (arith, erase-missing k xs)

  pub length-erase_found :
      (k : String) (xs : List A) (x : A)
      → Distinct xs
      → find k xs ≡ some x
      → suc (length (erase k xs)) ≡ length xs
  unfolding find erase
  length-erase_found k [] x d h = cc
  length-erase_found k (y ∷ xs) x d h =
      ground (arith, str_eq_iff (key y) k, erase-missing k xs, length-erase_found k xs x d.1)

  -- The touched or new element goes to the front of the recency order.
  pub push-Distinct :
      (x : A) (xs : List A) → find (key x) xs ≡ none → Distinct xs → Distinct (xs ++ x ∷ [])
  unfolding find
  push-Distinct x [] n d = (refl, tt)
  push-Distinct x (y ∷ xs) n d = ground (
    arith,
    str_eq_iff (key y) (key x),
    str_eq_iff (key x) (key y),
    find-append (key y) xs (x ∷ []),
    push-Distinct x xs,
  )

  pub Distinct-suffix : (ds xs : List A) → Distinct (ds ++ xs) → Distinct xs
  Distinct-suffix [] xs d = d
  Distinct-suffix (x ∷ ds) xs d = Distinct-suffix ds xs d.1

  -- What is found behind is not found in front.
  pub find-front :
      (k : String) (xs ys : List A) (y : A)
      → Distinct (xs ++ ys)
      → find k ys ≡ some y
      → find k xs ≡ none
  unfolding find
  find-front k [] ys y d h = refl
  find-front k (x ∷ xs) ys y d h = ground (
    arith,
    str_eq_iff (key x) k,
    find-append k xs ys,
    find-append (key x) xs ys,
    find-front k xs ys y d.1,
  )

  -- The end of a recency list answers as the whole list, or has lost the key.
  pub find-suffix :
      (k : String) (ds xs : List A)
      → Distinct (ds ++ xs)
      → (find k xs ≡ none) ⊎ (find k xs ≡ find k (ds ++ xs))
  find-suffix k ds xs d = elim (Option-cases (find k xs)) [
    | inl e ↦ inl e
    | inr (x, e) ↦ inr (rw (find-append k ds xs, find-front k ds xs x d e))
  ]

  pub found-last : (x : A) (xs : List A) → find (key x) (xs ++ x ∷ []) ≢ none
  unfolding find
  found-last x [] = λ e. ground (arith, str_eq_iff (key x) (key x))
  found-last x (y ∷ xs) = λ e. ground (arith, found-last x xs)
