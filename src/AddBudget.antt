-- ===== src/AddBudget.antt =====
-- internal/scout/addbudget.go: the rolling ceiling on debrid adds, per account.
--
-- A `time.Time` and a `time.Duration` are nanoseconds. Each method holds the mutex throughout (but for
-- `lowest`), so a method is a function from the budget and the clock's reading to the budget and the
-- result. The slice of an account's charges is kept newest first: its head is the slice's last element.
pub mod Live
pub mod Log
pub mod Refine
pub mod Waits
pub mod Totals
mod Tests
use den_scout.Prelude.{
  ℕ, suc, ◌+◌, ◌-◌, ◌*◌, Bool, true, false, ◌&&◌, String, Option, none, some, List, [], ◌∷◌, ltb,
  leb, length, get_elem?, keep, if◌then◌else◌,
}
use den_scout.Prelude.Assoc.{lookup, insert, filter_values}

-- time.Second, time.Minute and time.Hour.
abbrev pub second : ℕ
second = 1_000_000_000

abbrev pub minute : ℕ
minute = 60 * second

abbrev pub hour : ℕ
hour = 60 * minute

abbrev pub add_budget_window : ℕ
add_budget_window = hour

abbrev pub add_budget_limit : ℕ
add_budget_limit = 50

abbrev pub default_play_reserve : ℕ
default_play_reserve = 5

-- The fields that no method but SetPlayReserve writes.
pub record Limits : Type 0 where
  pub window : ℕ
  pub limit : ℕ
  pub reserve : ℕ

pub record AddBudget : Type 0 where
  pub limits : Limits
  pub open limits use *
  pub spent : List (String × List ℕ)

pub new_add_budget : ℕ → ℕ → AddBudget
new_add_budget window limit = record {
  limits = record { window = window; limit = limit; reserve = default_play_reserve };
  spent = [];
}

pub set_play_reserve : ℕ → AddBudget → AddBudget
set_play_reserve n b = record b { limits = record (b.limits) { reserve = n } }

-- The limit is above the reserve, or nothing is left to a prefetch: the source's difference may fall
-- below zero, where it is only compared with a length and with zero, and 0 compares alike.
unfoldable pub ceiling : Limits → Bool → ℕ
ceiling l prefetch = if prefetch then l.limit - l.reserve else l.limit

-- `t.After(cutoff)` with `cutoff = now.Add(-b.window)`.
abbrev pub is_live : Limits → ℕ → ℕ → Bool
is_live l now t = ltb now (t + l.window)

abbrev pub live : Limits → ℕ → List ℕ → List ℕ
live l now = keep (is_live l now)

-- `b.spent[account]`: a missing key reads as the empty slice.
unfoldable pub charges : String → List (String × List ℕ) → List ℕ
charges account m = elim (lookup account m) [ none ↦ [] | some ts ↦ ts ]

-- The newest charge is past the cutoff.
unfoldable pub has_live : Limits → ℕ → List ℕ → Bool
has_live l now [] = false
has_live l now (t ∷ ts) = is_live l now t

unfoldable pub drop_drained : Limits → ℕ → List (String × List ℕ) → List (String × List ℕ)
drop_drained l now = filter_values (has_live l now)

pub take : AddBudget → String → Bool → ℕ → AddBudget × Bool
unfolding drop_drained
take b account prefetch now =
    let spent = drop_drained b.limits now b.spent in
    let kept = live b.limits now (charges account spent) in
    if leb (ceiling b.limits prefetch) (length kept)
    then (record b { spent = insert account kept spent }, false)
    else (record b { spent = insert account (now ∷ kept) spent }, true)

pub refund : AddBudget → String → AddBudget
refund b account = elim (charges account b.spent) [
  | [] ↦ b
  | t ∷ ts ↦ record b { spent = insert account ts b.spent }
]

-- `left > 0` or 0: the difference that stops at 0.
unfoldable pub remaining : AddBudget → String → ℕ → ℕ
remaining b account now = b.limit - length (live b.limits now (charges account b.spent))

-- `live[len(live)-ceiling]` is the element at `ceiling - 1` from the newest.
pub frees_in : AddBudget → String → Bool → ℕ → ℕ
frees_in b account prefetch now =
    let held = live b.limits now (charges account b.spent) in
    let most = ceiling b.limits prefetch in
    if leb most 0
    then b.window
    else if ltb (length held) most
    then 0
    else elim (get_elem? held (most - 1)) [ none ↦ 0 | some t ↦ t + b.window - now ]

-- The tests of `lowest`: the lower allowance, and one more account that has spent.
unfoldable pub lower_left : AddBudget → ℕ → ℕ → ℕ
lower_left b r left = if ltb r b.limit && ltb r left then r else left

unfoldable pub count_spent : AddBudget → ℕ → ℕ → ℕ
count_spent b r accounts = if ltb r b.limit then suc accounts else accounts

-- The loop of `lowest` over the keys that it read, with no call in between.
pub lowest_from : AddBudget → ℕ → List (String × List ℕ) → ℕ → ℕ → ℕ × ℕ
lowest_from b now [] left accounts = (left, accounts)
lowest_from b now ((account, _) ∷ rest) left accounts =
    let r = remaining b account now in
    lowest_from b now rest (lower_left b r left) (count_spent b r accounts)

pub lowest : AddBudget → ℕ → ℕ × ℕ
lowest b now = lowest_from b now b.spent b.limit 0

-- What `spendAdd` answers: allowed, or refused, with errPlayReserve or as a spent budget.
pub data Spend : Type 0 where
  allowed : Spend
  play_reserve : Spend
  budget_spent : Spend

-- metrics.addRefusedPrefetch and metrics.addRefusedPlay.
pub record Refusals : Type 0 where
  pub refused_prefetch : ℕ
  pub refused_play : ℕ

-- The global budget and the metrics before and after. The log lines are left out.
pub spend_add : AddBudget × Refusals → String → Bool → ℕ → (AddBudget × Refusals) × Spend
spend_add (b, m) account prefetch now =
    let (b', granted) = take b account prefetch now in
    if granted
    then ((b', m), allowed)
    else if prefetch
    then ((b', record m { refused_prefetch = suc (m.refused_prefetch) }), play_reserve)
    else ((b', record m { refused_play = suc (m.refused_play) }), budget_spent)

-- What became of the request that a charge was made for.
pub data Outcome : Type 0 where
  sent : Outcome
  not_sent : Outcome

-- `refundAdd`: only a request that was never sent gives its charge back.
pub refund_add : AddBudget → String → Outcome → AddBudget
refund_add b account sent = b
refund_add b account not_sent = refund b account
