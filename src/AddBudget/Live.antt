-- ===== src/AddBudget/Live.antt =====
-- The charges of one account that the window still holds.
use den_scout.Prelude.{ℕ, ◌+◌, ◌≤◌, ◌≡◌, refl, false, List, [], ◌∷◌, arith, ltb}
use den_scout.AddBudget.{Limits, live, has_live}

-- Newest first, and none after `now`.
abbrev pub Desc : ℕ → List ℕ → Type 0
Desc now [] = Unit {0}
Desc now (t ∷ ts) = (t ≤ now) × Desc t ts

pub Desc-mono : (m n : ℕ) (ts : List ℕ) → m ≤ n → Desc m ts → Desc n ts
Desc-mono m n [] h d = tt
Desc-mono m n (t ∷ ts) h d = (omega arith, d.1)

-- An old charge behind an old one: nothing is live.
pub live-old :
    (l : Limits) (now m : ℕ) (ts : List ℕ)
    → Desc m ts
    → ltb now (m + l.window) ≡ false
    → live l now ts ≡ []
live-old l now m [] d h = refl
live-old l now m (t ∷ ts) d h = ground (arith, live-old l now t ts d.1)

pub live-Desc : (l : Limits) (now m : ℕ) (ts : List ℕ) → Desc m ts → Desc m (live l now ts)
live-Desc l now m [] d = tt
live-Desc l now m (t ∷ ts) d =
    ground (arith, live-Desc l now t ts d.1, Desc-mono t m (live l now ts))

-- What a later cutoff keeps can be read off what an earlier one kept.
pub live-live :
    (l : Limits) (early late : ℕ) (ts : List ℕ)
    → early ≤ late
    → live l late (live l early ts) ≡ live l late ts
live-live l early late [] h = refl
live-live l early late (t ∷ ts) h = ground (arith, live-live l early late ts)

pub has_live-false :
    (l : Limits) (now m : ℕ) (ts : List ℕ)
    → Desc m ts
    → has_live l now ts ≡ false
    → live l now ts ≡ []
unfolding has_live
has_live-false l now m [] d h = refl
has_live-false l now m (t ∷ ts) d h = ground (arith, live-old l now t ts d.1)

-- Two histories that agree on the live charges still do without their newest charge.
unfoldable pub tail_of : List ℕ → List ℕ
tail_of [] = []
tail_of (t ∷ ts) = ts

pub live-tail_of :
    (l : Limits) (now m : ℕ) (ts : List ℕ)
    → Desc m ts
    → live l now (tail_of ts) ≡ tail_of (live l now ts)
unfolding tail_of
live-tail_of l now m [] d = refl
live-tail_of l now m (t ∷ ts) d = ground (arith, live-old l now t ts d.1)

pub tail_of-Desc : (m : ℕ) (ts : List ℕ) → Desc m ts → Desc m (tail_of ts)
unfolding tail_of
tail_of-Desc m [] d = tt
tail_of-Desc m (t ∷ ts) d = Desc-mono t m ts d.0 d.1
