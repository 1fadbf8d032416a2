-- ===== src/HostLimit/Pace.antt =====
-- How often a host is asked.
use den_scout.Prelude.{
  ℕ, zero, suc, ◌+◌, ◌-◌, ◌*◌, ◌≤◌, ◌<◌, ◌≡◌, refl, String, some, List, [], ◌∷◌, arith, length,
  get_elem?, if◌then◌else◌, Option-cases, Bool-cases, inl, inr, str_eq,
}
use den_scout.Prelude.Int.{ℤ, pos, pos_part, neg_part, ◌+ℤ◌, ◌-ℤ◌, ltb_ℤ}
use den_scout.Prelude.Assoc.{lookup, length-insert_le, length-insert_found}
use den_scout.HostLimit.{
  Bucket, HostLimiter, refill, take, refund, try_take, wait, make_room, new_bucket,
}

-- After `n` tokens spent since `start`, the bucket is that far behind a full one.
abbrev Owes : ℕ → ℕ → ℕ → ℕ → Bucket → Type 0
Owes every burst start n b =
    start + n * every + pos_part b.credit ≤ b.last + neg_part b.credit + burst * every

take-first :
    (every burst : ℕ) (b : Bucket) (now : ℕ) → Owes every burst now 1 (take every burst b now).0
unfolding take refill ◌+ℤ◌ ◌-ℤ◌
take-first every burst b now = ground arith

take-Owes :
    (every burst start n : ℕ) (b : Bucket) (gap : ℕ)
    → Owes every burst start n b
    → Owes every burst start (suc n) (take every burst b (b.last + gap)).0
unfolding take refill ◌+ℤ◌ ◌-ℤ◌
take-Owes every burst start n b gap h = ground arith

take-delay :
    (every burst start n : ℕ) (b : Bucket) (now : ℕ)
    → Owes every burst start n (take every burst b now).0
    → start + n * every ≤ now + (take every burst b now).1 + burst * every
unfolding take
take-delay every burst start n b now h = omega arith

refund-Owes :
    (every burst start n : ℕ) (b : Bucket)
    → 1 ≤ n
    → Owes every burst start n b
    → Owes every burst start (n - 1) (refund every burst b)
unfolding refund ◌+ℤ◌
refund-Owes every burst start zero b some_out h = absurd (omega (arith, some_out))
refund-Owes every burst start (suc n) b some_out h =
    let one_less : suc n - 1 ≡ n = omega arith in rw one_less (ground (arith, h))

-- What happens to one bucket: a request, so long after the one before, or one that gives its token back.
pub data Event : Type 0 where
  asks : ℕ → Event
  gives_up : Event

-- Each request with the tokens that are out when it has taken its own, and the moment at which it is sent.
unfoldable pub sends : ℕ → ℕ → ℕ → Bucket → List Event → List (ℕ × ℕ)
unfolding take refund
sends every burst n b [] = []
sends every burst n b (asks gap ∷ events) =
    let now = b.last + gap in
    let (b', delay) = take every burst b now in
    (suc n, now + delay) ∷ sends every burst (suc n) b' events
sends every burst n b (gives_up ∷ events) = sends every burst (n - 1) (refund every burst b) events

-- No more tokens are given back than are out.
abbrev pub AreOwn : ℕ → List Event → Type 0
AreOwn n [] = Unit
AreOwn n (asks gap ∷ events) = AreOwn (suc n) events
AreOwn n (gives_up ∷ events) = (1 ≤ n) × AreOwn (n - 1) events

-- `take` notes the moment of the call.
sends-Owes :
    (every burst start n : ℕ) (b : Bucket) (events : List Event) (k out sent : ℕ)
    → Owes every burst start n b
    → AreOwn n events
    → get_elem? (sends every burst n b events) k ≡ some (out, sent)
    → start + out * every ≤ sent + burst * every
unfolding sends
sends-Owes every burst start n b [] k out sent h own e = cc
sends-Owes every burst start n b (asks gap ∷ events) zero out sent h own e = ground (
  arith,
  take-delay every burst start (suc n) b (b.last + gap) (take-Owes every burst start n b gap h),
  e,
)
sends-Owes every burst start n b (asks gap ∷ events) (suc k) out sent h own e =
    sends-Owes every burst start (suc n) (take every burst b (b.last + gap)).0 events k out sent
      (take-Owes every burst start n b gap h) own e
sends-Owes every burst start n b (gives_up ∷ events) k out sent h (some_out, own) e =
    sends-Owes every burst start (n - 1) (refund every burst b) events k out sent
      (refund-Owes every burst start n b some_out h) own e

-- The pace of one bucket, for as long as the limiter keeps it: a limiter with a bound may forget it and
-- start over with a full burst. From any request on, whatever the bucket held then, let requests come, and
-- let some of them give their token back. A request that makes for `out` tokens that are taken and not given
-- back is sent no sooner than `out - burst` intervals after that first request.
pub sends_pace :
    (every burst : ℕ) (b : Bucket) (gap : ℕ) (events : List Event) (k out sent : ℕ)
    → AreOwn 1 events
    → get_elem? (sends every burst 0 b (asks gap ∷ events)) k ≡ some (out, sent)
    → b.last + gap + out * every ≤ sent + burst * every
unfolding sends
sends_pace every burst b gap events zero out sent own e = ground (
  arith,
  take-delay every burst (b.last + gap) 1 b (b.last + gap)
      (take-first every burst b (b.last + gap)),
  e,
)
sends_pace every burst b gap events (suc k) out sent own e =
    sends-Owes every burst (b.last + gap) 1 (take every burst b (b.last + gap)).0 events k out sent
      (take-first every burst b (b.last + gap)) own e

-- How many requests `allow` lets through, and the bucket then.
unfoldable pub passes : ℕ → ℕ → Bucket → List ℕ → Bucket × ℕ
passes every burst b [] = (b, 0)
passes every burst b (gap ∷ gaps) =
    let (b', free) = try_take every burst b (b.last + gap) in
    let (b'', n) = passes every burst b' gaps in (b'', if free then suc n else n)

unfoldable pub elapsed : List ℕ → ℕ
elapsed [] = 0
elapsed (gap ∷ gaps) = gap + elapsed gaps

refill-Owes :
    (every burst start n : ℕ) (b : Bucket) (gap : ℕ)
    → Owes every burst start n b
    → let c = refill every burst b (b.last + gap) in
      start + n * every + pos_part c ≤ b.last + gap + neg_part c + burst * every
unfolding refill ◌+ℤ◌
refill-Owes every burst start n b gap h = ground arith

-- Held at or below the burst, and never in debt: what `allow` alone does to a bucket.
pub record IsPaid (every burst : ℕ) (b : Bucket) : Type 0 where
  pub no_debt : neg_part b.credit ≡ 0
  pub at_most_full : pos_part b.credit ≤ burst * every

refill-IsPaid :
    (every burst : ℕ) (b : Bucket) (gap : ℕ)
    → IsPaid every burst b
    → let c = refill every burst b (b.last + gap) in (neg_part c ≡ 0) × (pos_part c ≤ burst * every)
unfolding refill ◌+ℤ◌
refill-IsPaid every burst b gap v = ground arith

minus-parts :
    (c : ℤ) (every : ℕ)
    → neg_part c ≡ 0
    → every ≤ pos_part c
    → (neg_part (c -ℤ pos every) ≡ 0) × (pos_part (c -ℤ pos every) + every ≡ pos_part c)
unfolding ◌-ℤ◌
minus-parts c every n h = ground arith

-- One call: what is owed afterwards, and that the bucket is still paid.
try_take-Owes :
    (every burst start n : ℕ) (b : Bucket) (gap : ℕ)
    → IsPaid every burst b
    → Owes every burst start n b
    → let (b', free) = try_take every burst b (b.last + gap) in
      Owes every burst start (if free then suc n else n) b'
      × IsPaid every burst b'
      × (b'.last ≡ b.last + gap)
unfolding try_take
try_take-Owes every burst start n b gap v h =
    let c = refill every burst b (b.last + gap) in
    let owed = refill-Owes every burst start n b gap h in
    let paid = refill-IsPaid every burst b gap v in
    elim (Bool-cases (ltb_ℤ c (pos every))) [
      | inl short ↦ rw short (omega (arith, owed, paid), omega (arith, paid), refl)
      | inr free ↦
          let left = minus-parts c every paid.0 (ground (arith, paid)) in
          rw free (omega (arith, owed, paid, left), omega (arith, paid, left), refl)
    ]

passes-Owes :
    (every burst start n : ℕ) (b : Bucket) (gaps : List ℕ)
    → IsPaid every burst b
    → Owes every burst start n b
    → let (b', m) = passes every burst b gaps in
      Owes every burst start (n + m) b' × IsPaid every burst b' × (b'.last ≡ b.last + elapsed gaps)
unfolding passes elapsed
passes-Owes every burst start n b [] v h = (omega arith, v, omega arith)
passes-Owes every burst start n b (gap ∷ gaps) v h =
    let (owed, paid, at) = try_take-Owes every burst start n b gap v h in
    let (b', free) = try_take every burst b (b.last + gap) in
    elim (Bool-cases free) [
      | inl yes_free ↦
          let rest = passes-Owes every burst start (suc n) b' gaps paid (rw yes_free at owed) in
          rw yes_free (omega (arith, rest.0), rest.1, omega (arith, rest.2, at))
      | inr full ↦
          let rest = passes-Owes every burst start n b' gaps paid (rw full at owed) in
          rw full (rest.0, rest.1, omega (arith, rest.2, at))
    ]

-- A bucket that only `allow` spends, however often it is asked over whatever time, lets no more calls
-- through than its burst and one per interval.
pub passes_pace :
    (every burst : ℕ) (b : Bucket) (gaps : List ℕ)
    → IsPaid every burst b
    → (passes every burst b gaps).1 * every ≤ elapsed gaps + burst * every
passes_pace every burst b gaps v =
    omega (arith, passes-Owes every burst b.last 0 b gaps v (omega (arith, v)), v)

-- A limiter with a bound never remembers more hosts than it, whatever hosts its callers choose.
pub wait_bounded :
    (l : HostLimiter) (host : String) (now : ℕ)
    → 0 < l.max_keys
    → length l.buckets ≤ l.max_keys
    → length (wait l host now).0.buckets ≤ (wait l host now).0.max_keys
unfolding wait make_room
wait_bounded l host now some_keys h = elim (Bool-cases (str_eq host "")) [
  | inl empty ↦ rw empty h
  | inr named ↦ rw named (elim (Option-cases (lookup host l.buckets)) [
    | inl e ↦
        rw (e, wait)
          (omega (
            arith,
            length-insert_le host (take l.every l.burst (new_bucket l now) now).0 (make_room l),
            room,
          ))
    | inr (b, e) ↦ rw (e, wait) (rw (length-insert_found host _ l.buckets (λ n. cc)) h)
  ])
]
  where
    room : length (make_room l) < l.max_keys
    room = ground arith
