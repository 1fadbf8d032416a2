-- ===== src/HostLimit.antt =====
-- internal/scout/hostlimit.go: outbound pacing, a token bucket per upstream host.
--
-- The source counts tokens as a float; here a bucket counts `tokens * every` in nanoseconds, a whole
-- number that may be negative, so that a refill adds the time elapsed and a token is worth `every`. The
-- clock that the source reads is monotonic: `now - last` does not fall below zero. Each bucket method
-- holds the bucket's mutex, and the look-up the limiter's.
pub mod Pace
mod Tests
use den_scout.Prelude.{
  ℕ, suc, ◌+◌, ◌-◌, ◌*◌, Bool, true, false, ◌&&◌, String, Option, none, some, List, [], ◌∷◌, ltb,
  leb, length, str_eq, if◌then◌else◌,
}
use den_scout.Prelude.Int.{ℤ, pos, ◌+ℤ◌, ◌-ℤ◌, ltb_ℤ, neg_part}
use den_scout.Prelude.Assoc.{lookup, insert}
use den_scout.AddBudget.{second}

pub record Bucket : Type 0 where
  pub credit : ℤ
  pub last : ℕ

pub record HostLimiter : Type 0 where
  pub every : ℕ
  pub burst : ℕ
  pub max_keys : ℕ
  pub buckets : List (String × Bucket)

-- An interval of zero is a second, and a burst of zero one.
unfoldable pub new_host_limiter : ℕ → ℕ → HostLimiter
new_host_limiter every burst = record {
  every = if leb every 0 then second else every;
  burst = if ltb burst 1 then 1 else burst;
  max_keys = 0;
  buckets = [];
}

unfoldable pub new_bounded_host_limiter : ℕ → ℕ → ℕ → HostLimiter
unfolding new_host_limiter
new_bounded_host_limiter every burst max_keys = record (new_host_limiter every burst) {
  max_keys = max_keys;
}

-- The refill of `take` and `tryTake`: by elapsed time, up to the burst.
unfoldable pub refill : ℕ → ℕ → Bucket → ℕ → ℤ
refill every burst b now =
    let full = pos (burst * every) in
    let tokens = b.credit +ℤ pos (now - b.last) in if ltb_ℤ full tokens then full else tokens

-- The bucket, which may go negative, and the wait for the token.
unfoldable pub take : ℕ → ℕ → Bucket → ℕ → Bucket × ℕ
take every burst b now =
    let tokens = refill every burst b now -ℤ pos every in
    (record { credit = tokens; last = now }, neg_part tokens)

unfoldable pub try_take : ℕ → ℕ → Bucket → ℕ → Bucket × Bool
try_take every burst b now =
    let tokens = refill every burst b now in
    if ltb_ℤ tokens (pos every)
    then (record { credit = tokens; last = now }, false)
    else (record { credit = tokens -ℤ pos every; last = now }, true)

unfoldable pub refund : ℕ → ℕ → Bucket → Bucket
refund every burst b =
    if ltb_ℤ b.credit (pos (burst * every)) then record b { credit = b.credit +ℤ pos every } else b

unfoldable pub new_bucket : HostLimiter → ℕ → Bucket
new_bucket l now = record { credit = pos (l.burst * l.every); last = now }

-- The map that a new host's bucket is put into: emptied if it holds as many as it may.
unfoldable pub make_room : HostLimiter → List (String × Bucket)
make_room l = if ltb 0 l.max_keys && leb l.max_keys (length l.buckets) then [] else l.buckets

-- `wait` up to its timer: the limiter, and the delay. A context that ends first is `cancel`.
unfoldable pub wait : HostLimiter → String → ℕ → HostLimiter × ℕ
wait l host now = if str_eq host "" then (l, 0) else elim (lookup host l.buckets) [
  | some b ↦
      let (b', delay) = take l.every l.burst b now in
      (record l { buckets = insert host b' l.buckets }, delay)
  | none ↦
      let (b', delay) = take l.every l.burst (new_bucket l now) now in
      (record l { buckets = insert host b' (make_room l) }, delay)
]

-- The caller's context ended before its timer: its token goes back to the bucket.
unfoldable pub cancel : HostLimiter → String → HostLimiter
cancel l host = elim (lookup host l.buckets) [
  | some b ↦ record l { buckets = insert host (refund l.every l.burst b) l.buckets }
  | none ↦ l
]

unfoldable pub allow : HostLimiter → String → ℕ → HostLimiter × Bool
allow l key now = if str_eq key "" then (l, true) else elim (lookup key l.buckets) [
  | some b ↦
      let (b', free) = try_take l.every l.burst b now in
      (record l { buckets = insert key b' l.buckets }, free)
  | none ↦
      let (b', free) = try_take l.every l.burst (new_bucket l now) now in
      (record l { buckets = insert key b' l.buckets }, free)
]
