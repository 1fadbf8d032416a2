-- ===== src/AddBudget/Waits.antt =====
-- What `freesIn` tells a client, and what the reserve leaves to a viewer.
use den_scout.Prelude.{
  ℕ, suc, zero, ◌+◌, ◌-◌, ◌≤◌, ◌<◌, ◌≡◌, refl, Bool, true, false, String, some, List, [], ◌∷◌,
  arith, ltb, length, get_elem?,
}
use native.Mathlib.Decide.{dec_lt}
use native.Mathlib.Nat.{add-zero}
use den_scout.Prelude.Assoc.{IsMap}
use den_scout.AddBudget.{AddBudget, Limits, live, ceiling, charges, take, frees_in, remaining}
use den_scout.AddBudget.Live.{Desc, Desc-mono, live-old, live-Desc, live-live}
use den_scout.AddBudget.Refine.{live-drop_drained}

-- The map has distinct keys, and each account's charges are in order and not in the future.
pub record IsValid (now : ℕ) (b : AddBudget) : Type 0 where
  pub is_map : IsMap b.spent
  pub ordered : (a : String) → Desc now (charges a b.spent)

-- Whether an add is allowed, from the charges alone.
pub take_lem :
    (b : AddBudget) (a : String) (p : Bool) (now later : ℕ)
    → now ≤ later
    → IsValid now b
    → (take b a p later).1
      ≡ ltb (length (live b.limits later (charges a b.spent))) (ceiling b.limits p)
unfolding take
take_lem b a p now later h v =
    rw
      (live-drop_drained b.limits later a b.spent v.is_map
        (Desc-mono now later (charges a b.spent) h (v.ordered a))).0
      (ground arith)

-- Once the charge at place `i` has drained, at most `i` are left.
drained :
    (l : Limits) (m i t : ℕ) (ts : List ℕ)
    → Desc m ts
    → get_elem? ts i ≡ some t
    → length (live l (t + l.window) ts) ≤ i
drained l m i t [] d e = omega arith
drained l m zero t (x ∷ ts) d e = ground (arith, live-old l (t + l.window) x ts d.1)
drained l m (suc i) t (x ∷ ts) d e = ground (arith, drained l x i t ts d.1)

-- Until then it and those after it are all live.
undrained :
    (l : Limits) (m i t now : ℕ) (ts : List ℕ)
    → Desc m ts
    → get_elem? ts i ≡ some t
    → now < t + l.window
    → suc i ≤ length (live l now ts)
undrained l m i t now [] d e h = cc
undrained l m zero t now (x ∷ ts) d e h = ground arith
undrained l m (suc i) t now (x ∷ ts) d e h =
    ground (arith, undrained l x i t now ts d.1, live-old l now x ts d.1)

get_elem?-some {ℓ} :
    {A : Type ℓ} (xs : List A) (i : ℕ) → i < length xs → (x : A) × (get_elem? xs i ≡ some x)
get_elem?-some [] i h = absurd (omega arith)
get_elem?-some (x ∷ xs) zero h = (x, refl)
get_elem?-some (x ∷ xs) (suc i) h = get_elem?-some xs i (omega arith)

get_elem?-live :
    (l : Limits) (now i t : ℕ) (ts : List ℕ)
    → get_elem? (live l now ts) i ≡ some t
    → now < t + l.window
get_elem?-live l now i t [] e = cc
get_elem?-live l now zero t (x ∷ ts) e = ground (arith, get_elem?-live l now zero t ts)
get_elem?-live l now (suc i) t (x ∷ ts) e =
    ground (arith, get_elem?-live l now i t ts, get_elem?-live l now (suc i) t ts)

module _ (b : AddBudget) (a : String) (p : Bool) (now : ℕ) (c : 0 < ceiling b.limits p) where
  frees_in-room :
      length (live b.limits now (charges a b.spent)) < ceiling b.limits p → frees_in b a p now ≡ 0
  unfolding frees_in
  frees_in-room h = ground arith

  frees_in-full :
      (t : ℕ)
      → ceiling b.limits p ≤ length (live b.limits now (charges a b.spent))
      → get_elem? (live b.limits now (charges a b.spent)) (ceiling b.limits p - 1) ≡ some t
      → frees_in b a p now ≡ t + b.window - now
  unfolding frees_in
  frees_in-full t h e = ground arith

  full_lem :
      (t : ℕ)
      → IsValid now b
      → get_elem? (live b.limits now (charges a b.spent)) (ceiling b.limits p - 1) ≡ some t
      → ((take b a p (t + b.window)).1 ≡ true)
        × ((later : ℕ) → now ≤ later → later < t + b.window → (take b a p later).1 ≡ false)
  full_lem t v e = (
    rw (take_lem b a p now (t + b.window) (omega (arith, alive)) v) (
        ground (
          arith,
          drained b.limits now (ceiling b.limits p - 1) t held ordered e,
          live-live b.limits now (t + b.window) (charges a b.spent),
          alive,
        )),
    λ later h k. rw (take_lem b a p now later h v) (
        ground (
          arith,
          undrained b.limits now (ceiling b.limits p - 1) t later held ordered e k,
          live-live b.limits now later (charges a b.spent) h,
        )),
  )
    where
      held : List ℕ
      held = live b.limits now (charges a b.spent)

      ordered : Desc now held
      ordered = live-Desc b.limits now now (charges a b.spent) (v.ordered a)

      alive : now < t + b.window
      alive = get_elem?-live b.limits now (ceiling b.limits p - 1) t (charges a b.spent) e

-- The Retry-After is exact. With a ceiling above zero and no other call in between, an add is allowed
-- once `freesIn` has passed, and refused at every moment before.
pub frees_in-take :
    (b : AddBudget) (a : String) (p : Bool) (now : ℕ)
    → IsValid now b
    → 0 < ceiling b.limits p
    → ((take b a p (now + frees_in b a p now)).1 ≡ true)
      × ((later : ℕ)
          → now ≤ later
          → later < now + frees_in b a p now
          → (take b a p later).1 ≡ false)
frees_in-take b a p now v c =
    elim (dec_lt (length (live b.limits now (charges a b.spent))) (ceiling b.limits p)) [
      | yes room ↦
          rw (frees_in-room b a p now c room, add-zero)
            (
              rw (take_lem b a p now now (omega arith) v) (ground arith),
              λ later h k. absurd (omega arith),
            )
      | no full ↦
          let (t, e) =
            get_elem?-some (live b.limits now (charges a b.spent)) (ceiling b.limits p - 1)
              (omega arith) in
          let alive =
            get_elem?-live b.limits now (ceiling b.limits p - 1) t (charges a b.spent) e in
          let ends : now + (t + b.window - now) ≡ t + b.window = omega arith in
          rw (frees_in-full b a p now c t (omega arith) e, ends) (full_lem b a p now c t v e)
    ]

-- With no ceiling left to the intent, an add is refused at every moment.
pub take_no_ceiling :
    (b : AddBudget) (a : String) (p : Bool) (now later : ℕ)
    → IsValid now b
    → now ≤ later
    → ceiling b.limits p ≡ 0
    → ((take b a p later).1 ≡ false) × (frees_in b a p now ≡ b.window)
unfolding frees_in
take_no_ceiling b a p now later v h c =
    (rw (take_lem b a p now later h v, c) (ground arith), ground arith)

-- An add for a viewer is allowed exactly while some allowance remains, and a prefetch's exactly while
-- more than the reserve remains.
pub reserve_for_play :
    (b : AddBudget) (a : String) (now : ℕ)
    → IsValid now b
    → ((take b a false now).1 ≡ ltb 0 (remaining b a now))
      × ((take b a true now).1 ≡ ltb b.reserve (remaining b a now))
unfolding ceiling remaining
reserve_for_play b a now v = (
  rw (take_lem b a false now now (omega arith) v) (ground arith),
  rw (take_lem b a true now now (omega arith) v) (ground arith),
)
