-- ===== src/UpstreamPause/Headers.antt =====
-- internal/scout/upstreampause.go: `retryAfter` and `exhaustedFor`, over what the standard library's
-- parsers (strconv.ParseInt, http.ParseTime) say of the header values.
use den_scout.Prelude.{
  ℕ, zero, ◌+◌, ◌-◌, ◌*◌, ◌/◌, ◌^◌, ◌≤◌, ◌≡◌, min, Bool, true, false, Option, none, some, arith,
  ltb, if◌then◌else◌,
}
use den_scout.AddBudget.{second, hour}

abbrev pub max_retry_after : ℕ
max_retry_after = hour

-- A Retry-After as the standard library reads it: none, seconds that are not negative, an HTTP date, or
-- neither.
pub data RetryAfter : Type 0 where
  absent : RetryAfter
  seconds : ℕ → RetryAfter
  date : ℕ → RetryAfter
  unreadable : RetryAfter

-- The time asked for, and whether one was sent that reads. A date in the past is no time.
unfoldable pub retry_after : RetryAfter → ℕ → ℕ × Bool
retry_after absent now = (0, false)
retry_after (seconds n) now =
    (min (min n (max_retry_after / second) * second) max_retry_after, true)
retry_after (date at) now = (min (at - now) max_retry_after, true)
retry_after unreadable now = (0, false)

-- What `number` returns of a value: one that reads, or the number that the parser gave beside its error
-- (0 for no number, the bound for one out of range, and a negative one, which is waited for as 0).
pub data Number : Type 0 where
  reads : ℕ → Number
  fails : ℕ → Number

abbrev pub number_value : Number → ℕ
number_value (reads n) = n
number_value (fails n) = n

-- A header or a parameter that is spent: it reads, and as zero.
abbrev pub is_spent : Option Number → Bool
is_spent (some (reads zero)) = true
is_spent _ = false

-- The headers of an answer: the parameters `r` and `t` of a `RateLimit` (both none where there is no such
-- header), and the two older pairs.
pub record Allowance : Type 0 where
  pub r : Option Number
  pub t : Option Number
  pub remaining : Option Number
  pub reset : Option Number
  pub x_remaining : Option Number
  pub x_reset : Option Number

-- time.Unix(0, 0), in nanoseconds since Go's zero time.
abbrev pub unix_epoch : ℕ
unix_epoch = 62_135_596_800 * second

-- A reset over a billion is a Unix time, not seconds to wait. time.Unix counts an int64 of seconds from Go's
-- zero time: one that is too large wraps around to the past.
unfoldable pub wait_for : ℕ → ℕ → ℕ
wait_for reset now =
    if ltb 1_000_000_000 reset
    then (if ltb (62_135_596_800 + reset) (2 ^ 63)
        then min (unix_epoch + reset * second - now) max_retry_after
        else 0)
    else min (reset * second) max_retry_after

abbrev pub value_of : Option Number → ℕ
value_of none = 0
value_of (some n) = number_value n

unfoldable pub exhausted_for : Allowance → ℕ → Option ℕ
exhausted_for h now =
    if is_spent h.r
    then some (wait_for (value_of h.t) now)
    else if is_spent h.remaining
    then some (wait_for (value_of h.reset) now)
    else if is_spent h.x_remaining
    then some (wait_for (value_of h.x_reset) now)
    else none

-- No header asks for more than an hour.
pub retry_after-le : (h : RetryAfter) (now : ℕ) → (retry_after h now).0 ≤ max_retry_after
unfolding retry_after
retry_after-le absent now = omega arith
retry_after-le (seconds n) now = omega arith
retry_after-le (date at) now = omega arith
retry_after-le unreadable now = omega arith

pub exhausted_for-le :
    (h : Allowance) (now : ℕ) {w : ℕ} → exhausted_for h now ≡ some w → w ≤ max_retry_after
unfolding exhausted_for wait_for
exhausted_for-le h now e = ground arith
