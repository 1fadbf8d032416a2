-- ===== src/Prelude/Assoc.antt =====
-- Go's `map[string]V` as an association list with distinct keys.
use Prim.Native.Nat.{suc, ◌≤◌}
use Prim.Native.String.{String}
use mathlib.Core.Path.{◌≡◌, refl, ap}
use mathlib.Core.Logic.{◌≢◌, inl, inr}
use mathlib.Core.Bool.{Bool}
use mathlib.Core.Option.{Option, none, some}
use mathlib.Core.List.{List, [], ◌∷◌}
use native.Mathlib.Omega.{arith}
use text.Mathlib.Text.{◌==◌ as str_eq}
use text.Mathlib.TextEquality.{eq_iff as str_eq_iff}
use den_scout.Prelude.Tests.{if◌then◌else◌, Bool-cases}
use den_scout.Prelude.Lists.{length}

module _ {ℓ} {V : Type ℓ} where
  -- `m[key]`, and `m[key] = u` of a map.
  unfoldable pub lookup : String → List (String × V) → Option V
  lookup key [] = none
  lookup key ((held, u) ∷ rest) = if str_eq held key then some u else lookup key rest

  unfoldable pub insert : String → V → List (String × V) → List (String × V)
  insert key u [] = (key, u) ∷ []
  insert key u ((held, old) ∷ rest) =
      if str_eq held key then (held, u) ∷ rest else (held, old) ∷ insert key u rest

  unfoldable pub delete : String → List (String × V) → List (String × V)
  delete k [] = []
  delete k ((j, w) ∷ m) = if str_eq j k then delete k m else (j, w) ∷ delete k m

  -- The entries whose value passes the test: a `range` loop that deletes the others.
  unfoldable pub filter_values : (V → Bool) → List (String × V) → List (String × V)
  filter_values p [] = []
  filter_values p ((j, w) ∷ m) = if p w then (j, w) ∷ filter_values p m else filter_values p m

  -- The value under a key, if it passes the test.
  abbrev pub only : (V → Bool) → Option V → Option V
  only p none = none
  only p (some v) = if p v then some v else none

  -- No key stands twice.
  abbrev pub IsMap : List (String × V) → Type ℓ
  IsMap [] = Unit
  IsMap ((j, w) ∷ m) = (lookup j m ≡ none) × IsMap m

  pub lookup-insert :
      (key other : String) (u : V) (table : List (String × V))
      → lookup other (insert key u table)
        ≡ (if str_eq key other then some u else lookup other table)
  unfolding lookup insert
  lookup-insert key other u [] = ground arith
  lookup-insert key other u ((held, old) ∷ rest) = ground (
    arith,
    lookup-insert key other u rest,
    str_eq_iff held key,
    str_eq_iff held other,
    str_eq_iff key other,
  )

  pub lookup-delete :
      (k j : String) (m : List (String × V))
      → lookup j (delete k m) ≡ (if str_eq k j then none else lookup j m)
  unfolding lookup delete
  lookup-delete k j [] = ground arith
  lookup-delete k j ((i, w) ∷ m) =
      ground (arith, str_eq_iff k j, str_eq_iff i k, str_eq_iff i j, lookup-delete k j m)

  pub lookup-filter_values :
      (p : V → Bool) (k : String) (m : List (String × V))
      → IsMap m
      → lookup k (filter_values p m) ≡ only p (lookup k m)
  unfolding lookup filter_values
  lookup-filter_values p k [] h = refl
  lookup-filter_values p k ((i, w) ∷ m) h =
      ground (arith, str_eq_iff i k, lookup-filter_values p k m h.1)

  pub insert-IsMap : (k : String) (v : V) (m : List (String × V)) → IsMap m → IsMap (insert k v m)
  unfolding lookup insert
  insert-IsMap k v [] h = (refl, tt)
  insert-IsMap k v ((i, w) ∷ m) h =
      ground (arith, str_eq_iff i k, str_eq_iff k i, lookup-insert k i v m, insert-IsMap k v m h.1)

  pub delete-IsMap : (k : String) (m : List (String × V)) → IsMap m → IsMap (delete k m)
  unfolding lookup delete
  delete-IsMap k [] h = tt
  delete-IsMap k ((i, w) ∷ m) h =
      ground (arith, str_eq_iff k i, lookup-delete k i m, delete-IsMap k m h.1)

  pub filter_values-IsMap :
      (p : V → Bool) (m : List (String × V)) → IsMap m → IsMap (filter_values p m)
  unfolding lookup filter_values
  filter_values-IsMap p [] h = tt
  filter_values-IsMap p ((i, w) ∷ m) h =
      ground (arith, lookup-filter_values p i m h.1, filter_values-IsMap p m h.1)

  pub length-filter_values_le :
      (p : V → Bool) (m : List (String × V)) → length (filter_values p m) ≤ length m
  unfolding filter_values
  length-filter_values_le p [] = omega arith
  length-filter_values_le p ((i, w) ∷ m) = ground (arith, length-filter_values_le p m)

  pub length-insert_new :
      (k : String) (v : V) (m : List (String × V))
      → lookup k m ≡ none
      → length (insert k v m) ≡ suc (length m)
  unfolding lookup insert
  length-insert_new k v [] h = refl
  length-insert_new k v ((i, w) ∷ m) h = ground (arith, length-insert_new k v m)

  pub length-insert_le :
      (k : String) (v : V) (m : List (String × V)) → length (insert k v m) ≤ suc (length m)
  unfolding lookup insert
  length-insert_le k v [] = omega arith
  length-insert_le k v ((i, w) ∷ m) = ground (arith, length-insert_le k v m)

  pub length-insert_found :
      (k : String) (v : V) (m : List (String × V))
      → lookup k m ≢ none
      → length (insert k v m) ≡ length m
  unfolding lookup insert
  length-insert_found k v [] h = absurd (h refl)
  length-insert_found k v ((i, w) ∷ m) h = elim (Bool-cases (str_eq i k)) [
    | inl hit ↦ rw hit
    | inr miss ↦ rw miss (ap suc (length-insert_found k v m (rw miss at h)))
  ]

  pub length-delete_le : (k : String) (m : List (String × V)) → length (delete k m) ≤ length m
  unfolding delete
  length-delete_le k [] = omega arith
  length-delete_le k ((i, w) ∷ m) = ground (arith, length-delete_le k m)
