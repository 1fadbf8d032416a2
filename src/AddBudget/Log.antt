-- ===== src/AddBudget/Log.antt =====
-- What the budget promises: a log of every charge that nothing prunes, and an add allowed while the
-- window up to now holds fewer charges of the account than the intent's ceiling.
use den_scout.Prelude.{
  ℕ, ◌+◌, ◌≤◌, Bool, true, false, String, List, [], ◌∷◌, arith, leb, length, if◌then◌else◌, str_eq,
  length-keep_le,
}
use den_scout.AddBudget.{Limits, is_live, live, ceiling}
use den_scout.AddBudget.Live.{Desc, Desc-mono, live-live, tail_of, live-tail_of, tail_of-Desc}

-- The charges of each account, newest first.
abbrev pub Log : Type 0
Log = String → List ℕ

abbrev pub write : String → List ℕ → Log → Log
write account ts log = λ a. if str_eq account a then ts else log a

pub data Event : Type 0 where
  takes : String → Bool → Event
  refunds : String → Event

unfoldable pub log_step : Limits → Log → ℕ → Event → Log × Bool
log_step l log now (takes account prefetch) =
    if leb (ceiling l prefetch) (length (live l now (log account)))
    then (log, false)
    else (write account (now ∷ log account) log, true)
log_step l log now (refunds account) = (write account (tail_of (log account)) log, true)

-- A history: each event with the time since the one before it. The answers, oldest first.
unfoldable pub log_run : Limits → Log → ℕ → List (ℕ × Event) → Log × List Bool
log_run l log now [] = (log, [])
log_run l log now ((gap, e) ∷ es) =
    let (log', answer) = log_step l log (now + gap) e in
    let (log'', answers) = log_run l log' (now + gap) es in (log'', answer ∷ answers)

unfoldable pub log_end : ℕ → List (ℕ × Event) → ℕ
log_end now [] = now
log_end now ((gap, e) ∷ es) = log_end (now + gap) es

-- The window never holds more than the limit.
pub record Inv (l : Limits) (now : ℕ) (log : Log) : Type 0 where
  pub ordered : (a : String) → Desc now (log a)
  pub within : (a : String) → length (live l now (log a)) ≤ l.limit

live-length_mono :
    (l : Limits) (early late : ℕ) (ts : List ℕ)
    → early ≤ late
    → length (live l late ts) ≤ length (live l early ts)
live-length_mono l early late ts h =
    rw (← live-live l early late ts h) (length-keep_le (is_live l late) (live l early ts))

module _ (l : Limits) (log : Log) (now gap : ℕ) (v : Inv l now log) where
  ordered_after : (a : String) → Desc (now + gap) (log a)
  ordered_after a = Desc-mono now (now + gap) (log a) (omega arith) (v.ordered a)

  within_after : (a : String) → length (live l (now + gap) (log a)) ≤ l.limit
  within_after a = omega (arith, live-length_mono l now (now + gap) (log a), v.within a)

length-tail_of_le : (ts : List ℕ) → length (tail_of ts) ≤ length ts
unfolding tail_of
length-tail_of_le [] = omega arith
length-tail_of_le (t ∷ ts) = omega arith

pub log_step-Inv :
    (l : Limits) (log : Log) (now gap : ℕ) (e : Event)
    → Inv l now log
    → Inv l (now + gap) (log_step l log (now + gap) e).0
unfolding log_step ceiling
log_step-Inv l log now gap (takes account prefetch) v = record {
  ordered =
      λ a. ground (arith, ordered_after l log now gap v a, ordered_after l log now gap v account);
  within =
      λ a. ground (arith, within_after l log now gap v a, within_after l log now gap v account);
}
log_step-Inv l log now gap (refunds account) v = record {
  ordered = λ a. ground (
    arith,
    ordered_after l log now gap v a,
    tail_of-Desc (now + gap) (log account) (ordered_after l log now gap v account),
  );
  within = λ a. ground (
    arith,
    within_after l log now gap v a,
    within_after l log now gap v account,
    live-tail_of l (now + gap) (now + gap) (log account) (ordered_after l log now gap v account),
    length-tail_of_le (live l (now + gap) (log account)),
  );
}

pub log_run-Inv :
    (l : Limits) (log : Log) (now : ℕ) (es : List (ℕ × Event))
    → Inv l now log
    → Inv l (log_end now es) (log_run l log now es).0
unfolding log_run log_end
log_run-Inv l log now [] v = v
log_run-Inv l log now ((gap, e) ∷ es) v =
    log_run-Inv l (log_step l log (now + gap) e).0 (now + gap) es (log_step-Inv l log now gap e v)

pub empty-Inv : (l : Limits) (now : ℕ) → Inv l now (λ a. [])
empty-Inv l now = record { ordered = λ a. tt; within = λ a. omega arith }
