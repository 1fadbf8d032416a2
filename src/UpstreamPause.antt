-- ===== src/UpstreamPause.antt =====
-- internal/scout/upstreampause.go: an upstream that refuses is left alone for as long as it asked.
--
-- The map of pauses is shared by every request; each method holds the mutex throughout. A time is
-- nanoseconds since Go's zero time, so `upstreamPause{}` is paused until 0. The transport underneath and
-- the parsers of header values (strconv, http.ParseTime) are not here: their results are arguments.
pub mod Headers
pub mod Pauses
pub mod Bound
mod Tests
use den_scout.Prelude.{
  ℕ, suc, ◌+◌, ◌-◌, ◌*◌, ◌/◌, ◌%◌, ◌^◌, min, Bool, true, false, ◌&&◌, ◌||◌, not, String, Option,
  none, some, List, [], ◌∷◌, ltb, leb, ◌==◌, length, if◌then◌else◌,
}
use den_scout.Prelude.Assoc.{lookup, insert, delete, filter_values}
use den_scout.AddBudget.{second, minute, hour}
use Headers.{RetryAfter, Allowance, retry_after, exhausted_for}

abbrev pub refusal_pause : ℕ
refusal_pause = 30 * second

abbrev pub max_refusal_pause : ℕ
max_refusal_pause = 10 * minute

abbrev pub max_paused_upstreams : ℕ
max_paused_upstreams = 4096

pub record UpstreamPause : Type 0 where
  pub until : ℕ
  pub refusals : ℕ

abbrev pub Paused : Type 0
Paused = List (String × UpstreamPause)

-- A difference below zero is read as "not paused", as zero is.
unfoldable pub left : Paused → String → ℕ → ℕ
left paused key now = elim (lookup key paused) [ none ↦ 0 | some p ↦ p.until - now ]

abbrev pub runs_on : ℕ → UpstreamPause → Bool
runs_on now p = ltb now p.until

unfoldable pub prune : Paused → ℕ → Paused
prune paused now =
    let kept = filter_values (runs_on now) paused in
    if leb max_paused_upstreams (length kept) then [] else kept

-- The pause under a key, or a new one, and the map that it is written to.
unfoldable pub entry_for : Paused → String → ℕ → Paused × UpstreamPause
entry_for paused key now = elim (lookup key paused) [
  | some p ↦ (paused, p)
  | none ↦ (
    if leb max_paused_upstreams (length paused) then prune paused now else paused,
    record { until = 0; refusals = 0 },
  )
]

-- `refusalPause << min(p.refusals-1, 10)`, capped, with a jitter of up to a quarter. `draw` is the random
-- number that `rand.Int63n` reduces.
unfoldable pub backoff : ℕ → ℕ → ℕ
backoff refusals draw =
    let pause = min (refusal_pause * 2 ^ min (refusals - 1) 10) max_refusal_pause in
    pause + draw % (pause / 4 + 1)

-- The new map, and how long the pause is.
unfoldable pub refused : Paused → String → ℕ → Bool → ℕ → ℕ → Paused × ℕ
refused paused key asked named draw now =
    let (paused', p) = entry_for paused key now in
    let pause = if named then asked else backoff (p.refusals + 1) draw in
    let until = if ltb p.until (now + pause) then now + pause else p.until in
    (insert key (record { until = until; refusals = p.refusals + 1 }) paused', pause)

unfoldable pub answered : Paused → String → Paused
answered paused key = delete key paused

-- What the transport underneath returns.
pub data Reply : Type 0 where
  failed : Reply
  response : ℕ → RetryAfter → Allowance → Reply

-- What a caller gets: the transport's reply, or a 429 of scout's own with a Retry-After in seconds.
pub data Answer : Type 0 where
  paused_for : ℕ → Answer
  passed : Reply → Answer

-- `errors` aside, what an answer does to the map: the switch of RoundTrip.
unfoldable pub settle : Paused → String → Reply → ℕ → ℕ → Paused
settle paused key failed draw now = paused
settle paused key (response status header allowance) draw now =
    let (asked, named) = retry_after header now in
    if status == 429 || status == 503 && named
    then (refused paused key asked named draw now).0
    else if ltb status 400
    then elim (exhausted_for allowance now) [
      | some wait ↦ (refused paused key wait true draw now).0
      | none ↦ answered paused key
    ]
    else paused

-- pausedResponse's header: the time left in seconds, rounded up.
abbrev pub seconds_left : ℕ → ℕ
seconds_left l = (l + second - 1) / second

-- One request, with no other in between: `now` when it is made, `later` when its reply is there.
unfoldable pub round_trip : Paused → String → Reply → ℕ → ℕ → ℕ → Paused × Answer
round_trip paused key reply draw now later =
    if ltb 0 (left paused key now)
    then (paused, paused_for (seconds_left (left paused key now)))
    else (settle paused key reply draw later, passed reply)
