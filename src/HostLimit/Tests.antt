-- ===== src/HostLimit/Tests.antt =====
-- The limiter on concrete requests.
use den_scout.Prelude.{List, ◌+◌, ◌*◌, ◌≤◌, ◌≡◌, refl, [], ◌∷◌, arith}
use den_scout.Prelude.Int.{pos, ◌+ℤ◌, ◌-ℤ◌}
use den_scout.HostLimit.{Bucket, HostLimiter, refill, take, try_take, refund}
use den_scout.HostLimit.Pace.{Event, asks, gives_up, sends, sends_pace, passes, IsPaid}

-- One token per ten, a burst of two, and a full bucket.
abbrev full : Bucket
full = record { credit = pos 20; last = 100 }

-- Four requests at once, two of which queue, ten apart; then one gives its token back, and the next is sent
-- when the last of the four is.
abbrev five_at_once : List Event
five_at_once = asks 0 ∷ asks 0 ∷ asks 0 ∷ gives_up ∷ asks 0 ∷ []

queued :
    sends 10 2 0 full (asks 0 ∷ five_at_once)
    ≡ (1, 100) ∷ (2, 100) ∷ (3, 110) ∷ (4, 120) ∷ (4, 120) ∷ []
unfolding sends take refund refill ◌+ℤ◌ ◌-ℤ◌
queued = refl

sends_pace_example : 100 + 4 * 10 ≤ 120 + 2 * 10
unfolding sends take refund refill ◌+ℤ◌ ◌-ℤ◌
sends_pace_example = sends_pace 10 2 full 0 five_at_once 4 4 120 (omega arith, tt) refl

full-IsPaid : IsPaid 10 2 full
full-IsPaid = record { no_debt = refl; at_most_full = omega arith }

three_pass : (passes 10 2 full (0 ∷ 0 ∷ 5 ∷ 5 ∷ [])).1 ≡ 3
unfolding passes try_take refill ◌+ℤ◌ ◌-ℤ◌
three_pass = refl

-- A refund may leave more than a burst: 15 and 10 above a full bucket of 20.
refund_above : refund 10 2 (record full { credit = pos 15 }) ≡ record full { credit = pos 25 }
unfolding refund ◌+ℤ◌
refund_above = refl

abbrev bounded : HostLimiter
bounded = record { every = 10; burst = 2; max_keys = 1; buckets = ("a.example", full) ∷ [] }
