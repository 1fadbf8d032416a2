-- ===== src/Rank/Order.antt =====
-- The order of the ranking, and the sort by it.
use den_scout.Prelude.{
  ℕ, zero, suc, ◌≤◌, ◌<◌, ◌≡◌, true, false, some, List, [], ◌∷◌, arith, get_elem?, subst,
}
use mathlib.Core.List.{Perm}
use den_scout.Prelude.Sorting.{IsLeast, IsSortedBy, sort_by-IsSortedBy, sort_by-Perm}
use den_scout.Prelude.Int.{◌≤ℤ◌}
use den_scout.Rank.Listing.{Scored, before, sort_scored}

before_asym : (a b : Scored) → before b a ≡ true → before a b ≡ false
unfolding before
before_asym a b h = ground arith

before_through : (a b c : Scored) → before b a ≡ false → before c b ≡ false → before c a ≡ false
unfolding before
before_through a b c h k = ground arith

before-score : (a b : Scored) → before b a ≡ false → b.score ≤ℤ a.score
unfolding before
before-score a b h = ground arith

abbrev pub IsFirst : Scored → List Scored → Type 0
IsFirst a l = IsLeast before a l

abbrev pub IsSorted : List Scored → Type 0
IsSorted l = IsSortedBy before l

pub sort_scored-IsSorted : (l : List Scored) → IsSorted (sort_scored l)
unfolding sort_scored
sort_scored-IsSorted l = sort_by-IsSortedBy before before_asym before_through l

pub sort_scored-Perm : (l : List Scored) → Perm (sort_scored l) l
unfolding sort_scored
sort_scored-Perm l = sort_by-Perm before l

IsFirst-at :
    (a b : Scored) (l : List Scored) (j : ℕ)
    → IsFirst a l
    → get_elem? l j ≡ some b
    → before b a ≡ false
IsFirst-at a b [] j v e = ground arith
IsFirst-at a b (c ∷ l) zero (h, v) e = subst (λ (x : Scored). before x a ≡ false) (cc) h
IsFirst-at a b (c ∷ l) (suc j) (h, v) e = IsFirst-at a b l j v e

-- Of two places in a sorted list, the score at the later one is no higher.
pub IsSorted-score :
    (l : List Scored) (a b : Scored) (i j : ℕ)
    → IsSorted l
    → i < j
    → get_elem? l i ≡ some a
    → get_elem? l j ≡ some b
    → b.score ≤ℤ a.score
IsSorted-score [] a b i j v h d e = ground arith
IsSorted-score (c ∷ l) a b zero zero v h d e = elim h [ ]
IsSorted-score (c ∷ l) a b (suc i) zero v h d e = elim h [ ]
IsSorted-score (c ∷ l) a b zero (suc j) (first, v) h d e =
    before-score a b (IsFirst-at a b l j (subst (λ (x : Scored). IsFirst x l) (cc) first) e)
IsSorted-score (c ∷ l) a b (suc i) (suc j) (first, v) h d e =
    IsSorted-score l a b i j v (omega arith) d e

-- The second of two entries stands rightly behind the first: no higher by score, then by seeders, and in
-- the order they came in where both are equal.
pub record IsBehind (a b : Scored) : Type 0 where
  pub by_score : b.score ≤ℤ a.score
  pub by_seeders : a.score ≤ℤ b.score → b.seeders ≤ a.seeders
  pub by_place : a.score ≤ℤ b.score → a.seeders ≤ b.seeders → a.idx ≤ b.idx

before-IsBehind : (a b : Scored) → before b a ≡ false → IsBehind a b
unfolding before
before-IsBehind a b h = record {
  by_score = ground (arith, h);
  by_seeders = λ p. ground (arith, h, p);
  by_place = λ p q. ground (arith, h, p, q);
}

abbrev pub AreBehind : Scored → List Scored → Type 0
AreBehind a [] = Unit
AreBehind a (b ∷ bs) = IsBehind a b × AreBehind a bs

-- Every entry stands rightly behind all in front of it.
abbrev pub IsOrdered : List Scored → Type 0
IsOrdered [] = Unit
IsOrdered (a ∷ rest) = AreBehind a rest × IsOrdered rest

IsFirst-AreBehind : (a : Scored) (bs : List Scored) → IsFirst a bs → AreBehind a bs
IsFirst-AreBehind a [] v = tt
IsFirst-AreBehind a (b ∷ bs) (h, v) = (before-IsBehind a b h, IsFirst-AreBehind a bs v)

pub IsSorted-IsOrdered : (l : List Scored) → IsSorted l → IsOrdered l
IsSorted-IsOrdered [] v = tt
IsSorted-IsOrdered (a ∷ rest) (first, v) =
    (IsFirst-AreBehind a rest first, IsSorted-IsOrdered rest v)
