-- ===== src/LogLimit/History.antt =====
-- Whole histories of the limited log.
use den_scout.Prelude.{
  ℕ, suc, ◌+◌, ◌-◌, ◌*◌, ◌≤◌, ◌≡◌, refl, true, false, String, Option, none, some, List, [], ◌∷◌,
  Bool-cases, inl, inr, arith, if◌then◌else◌, str_eq, str_eq_iff, ap, ◌∙◌,
}
use den_scout.Prelude.Assoc.{lookup, lookup-insert}
use den_scout.LogLimit.{LimitedLog, LimitedEntry, log_limited, log_interval, renew}

-- Calls, each a condition and the time that has passed since the call before.
abbrev pub Calls : Type 0
Calls = List (String × ℕ)

-- The calls of one condition.
pub calls_of : String → Calls → ℕ
calls_of key [] = 0
calls_of key ((k, dt) ∷ calls) = (if str_eq k key then 1 else 0) + calls_of key calls

abbrev pub line_count : Option ℕ → ℕ
line_count none = 0
line_count (some n) = 1

abbrev pub line_told : Option ℕ → ℕ
line_told none = 0
line_told (some n) = n

-- The lines that a condition wrote, and how many they say were held back.
unfoldable pub lines : String → LimitedLog → ℕ → Calls → ℕ
lines key last now [] = 0
lines key last now ((k, dt) ∷ calls) =
    let (last', line) = log_limited last k (now + dt) in
    (if str_eq k key then line_count line else 0) + lines key last' (now + dt) calls

unfoldable pub told : String → LimitedLog → ℕ → Calls → ℕ
told key last now [] = 0
told key last now ((k, dt) ∷ calls) =
    let (last', line) = log_limited last k (now + dt) in
    (if str_eq k key then line_told line else 0) + told key last' (now + dt) calls

-- The log after the calls, and the time then.
pub log_after : LimitedLog → ℕ → Calls → LimitedLog
log_after last now [] = last
log_after last now ((k, dt) ∷ calls) = log_after (log_limited last k (now + dt)).0 (now + dt) calls

abbrev pub elapsed : Calls → ℕ
elapsed [] = 0
elapsed ((k, dt) ∷ calls) = dt + elapsed calls

-- How many of a condition are held back and not told yet.
abbrev held_back : Option LimitedEntry → ℕ
held_back none = 0
held_back (some e) = e.suppressed

abbrev pub pending : String → LimitedLog → ℕ
pending key last = held_back (lookup key last)

-- What a call does to the entry of a condition.
entry_own :
    (last : LimitedLog) (k key : String) (now : ℕ)
    → str_eq k key ≡ true
    → lookup key (log_limited last k now).0 ≡ some (renew (lookup key last) now).0
unfolding log_limited
entry_own last k key now e =
    lookup-insert k key (renew (lookup k last) now).0 last
    ∙ rw (e) (ap (λ (x : String). some (renew (lookup x last) now).0) ((str_eq_iff k key).0 e))

entry_other :
    (last : LimitedLog) (k key : String) (now : ℕ)
    → str_eq k key ≡ false
    → lookup key (log_limited last k now).0 ≡ lookup key last
unfolding log_limited
entry_other last k key now e = lookup-insert k key (renew (lookup k last) now).0 last ∙ rw (e) refl

line_of :
    (last : LimitedLog) (k key : String) (now : ℕ)
    → str_eq k key ≡ true
    → (log_limited last k now).1 ≡ (renew (lookup key last) now).1
unfolding log_limited
line_of last k key now e =
    ap (λ (x : String). (renew (lookup x last) now).1) ((str_eq_iff k key).0 e)

renew-account :
    (o : Option LimitedEntry) (now : ℕ)
    → let (e, line) = renew o now in
      line_count line + line_told line + e.suppressed ≡ suc (held_back o)
unfolding renew
renew-account none now = omega arith
renew-account (some e) now = ground arith

-- How much of the interval has passed for a condition.
abbrev slack : Option LimitedEntry → ℕ → ℕ
slack none now = log_interval
slack (some e) now = now - e.at

renew-slack :
    (o : Option LimitedEntry) (now dt : ℕ)
    → let (e, line) = renew o (now + dt) in
      line_count line * log_interval + slack (some e) (now + dt) ≤ slack o now + dt
unfolding renew
renew-slack none now dt = omega arith
renew-slack (some e) now dt = ground arith

step-account :
    (last : LimitedLog) (k key : String) (now : ℕ)
    → let (last', line) = log_limited last k now in
      (if str_eq k key then line_count line else 0)
        + (if str_eq k key then line_told line else 0)
        + pending key last'
      ≡ (if str_eq k key then 1 else 0) + pending key last
step-account last k key now = elim (Bool-cases (str_eq k key)) [
  | inl e ↦ rw (e) (
      omega (
        arith,
        ap held_back (entry_own last k key now e),
        ap line_count (line_of last k key now e),
        ap line_told (line_of last k key now e),
        renew-account (lookup key last) now,
      ))
  | inr e ↦ rw (e) (omega (arith, ap held_back (entry_other last k key now e)))
]

-- Over any history, every call of a condition is accounted for: it wrote a line, or a later line of the
-- condition counts it as held back, or it is still pending.
pub log_after-account :
    (key : String) (last : LimitedLog) (now : ℕ) (calls : Calls)
    → lines key last now calls + told key last now calls + pending key (log_after last now calls)
      ≡ calls_of key calls + pending key last
unfolding lines told log_after calls_of
log_after-account key last now [] = omega arith
log_after-account key last now ((k, dt) ∷ calls) = omega (
  arith,
  step-account last k key (now + dt),
  log_after-account key (log_limited last k (now + dt)).0 (now + dt) calls,
)

abbrev slack_of : String → LimitedLog → ℕ → ℕ
slack_of key last now = slack (lookup key last) now

slack_later : (o : Option LimitedEntry) (now dt : ℕ) → slack o (now + dt) ≤ slack o now + dt
slack_later none now dt = omega arith
slack_later (some e) now dt = omega arith

step-slack :
    (last : LimitedLog) (k key : String) (now dt : ℕ)
    → let (last', line) = log_limited last k (now + dt) in
      (if str_eq k key then line_count line else 0) * log_interval + slack_of key last' (now + dt)
      ≤ slack_of key last now + dt
step-slack last k key now dt = elim (Bool-cases (str_eq k key)) [
  | inl e ↦ rw (e) (
      omega (
        arith,
        ap (λ (o : Option LimitedEntry). slack o (now + dt)) (entry_own last k key (now + dt) e),
        ap line_count (line_of last k key (now + dt) e),
        renew-slack (lookup key last) now dt,
      ))
  | inr e ↦ rw (e) (
      omega (
        arith,
        ap (λ (o : Option LimitedEntry). slack o (now + dt)) (entry_other last k key (now + dt) e),
        slack_later (lookup key last) now dt,
      ))
]

slack_bound :
    (key : String) (last : LimitedLog) (now : ℕ) (calls : Calls)
    → lines key last now calls * log_interval ≤ elapsed calls + slack_of key last now
unfolding lines
slack_bound key last now [] = omega arith
slack_bound key last now ((k, dt) ∷ calls) = omega (
  arith,
  step-slack last k key now dt,
  slack_bound key (log_limited last k (now + dt)).0 (now + dt) calls,
)

-- However much traffic there is, a condition writes no more than one line for each minute that passes, and
-- one more.
pub lines-pace :
    (key : String) (last : LimitedLog) (now : ℕ) (calls : Calls)
    → lookup key last ≡ none
    → lines key last now calls * log_interval ≤ elapsed calls + log_interval
lines-pace key last now calls h =
    omega (arith, slack_bound key last now calls, ap (λ (o : Option LimitedEntry). slack o now) h)
