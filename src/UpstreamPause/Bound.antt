-- ===== src/UpstreamPause/Bound.antt =====
-- How many pauses are remembered.
use den_scout.Prelude.{
  ℕ, suc, ◌≤◌, ◌<◌, Bool, true, String, List, [], ◌∷◌, arith, if◌then◌else◌, leb, length,
  Option-cases, inl, inr,
}
use den_scout.Prelude.Assoc.{
  lookup, length-insert_le, length-insert_found, length-delete_le, length-filter_values_le,
}
use den_scout.UpstreamPause.{
  Paused, refused, answered, entry_for, prune, settle, runs_on, Reply, failed, response,
  max_paused_upstreams,
}
use den_scout.UpstreamPause.Headers.{retry_after, exhausted_for}

prune-lt : (paused : Paused) (now : ℕ) → length (prune paused now) < max_paused_upstreams
unfolding prune
prune-lt paused now = ground arith

refused-bound :
    (paused : Paused) (key : String) (asked : ℕ) (named : Bool) (draw now : ℕ)
    → length paused ≤ max_paused_upstreams
    → length (refused paused key asked named draw now).0 ≤ max_paused_upstreams
unfolding refused entry_for
refused-bound paused key asked named draw now h = elim (Option-cases (lookup key paused)) [
  | inl e ↦
      rw (e, entry_for)
        (omega (
          arith,
          length-insert_le key _
              (if leb max_paused_upstreams (length paused) then prune paused now else paused),
          room,
        ))
  | inr (p, e) ↦ rw (e, entry_for) (rw (length-insert_found key _ paused (λ n. cc)) h)
]
  where
    room :
        length (if leb max_paused_upstreams (length paused) then prune paused now else paused)
        < max_paused_upstreams
    room = ground (arith, prune-lt paused now)

settle-bound :
    (paused : Paused) (key : String) (reply : Reply) (draw now : ℕ)
    → length paused ≤ max_paused_upstreams
    → length (settle paused key reply draw now) ≤ max_paused_upstreams
unfolding settle answered
settle-bound paused key failed draw now h = h
settle-bound paused key (response status header allowance) draw now h =
    let (asked, named) = retry_after header now in
    let first = refused-bound paused key asked named draw now h in
    elim (Option-cases (exhausted_for allowance now)) [
      | inl e ↦ ground (arith, first, length-delete_le key paused, e)
      | inr (w, e) ↦ ground (arith, first, refused-bound paused key w true draw now h, e)
    ]

length-prune : (paused : Paused) (now : ℕ) → length (prune paused now) ≤ length paused
unfolding prune
length-prune paused now = ground (arith, length-filter_values_le (runs_on now) paused)

length-refused :
    (paused : Paused) (key : String) (asked : ℕ) (named : Bool) (draw now : ℕ)
    → length (refused paused key asked named draw now).0 ≤ suc (length paused)
unfolding refused entry_for
length-refused paused key asked named draw now = elim (Option-cases (lookup key paused)) [
  | inl e ↦
      rw (e, entry_for)
        (omega (
          arith,
          length-insert_le key _
              (if leb max_paused_upstreams (length paused) then prune paused now else paused),
          no_longer,
        ))
  | inr (p, e) ↦ rw (e, entry_for) (omega (arith, length-insert_le key _ paused))
]
  where
    no_longer :
        length (if leb max_paused_upstreams (length paused) then prune paused now else paused)
        ≤ length paused
    no_longer = ground (arith, length-prune paused now)

-- A reply adds one pause at most.
pub length-settle :
    (paused : Paused) (key : String) (reply : Reply) (draw now : ℕ)
    → length (settle paused key reply draw now) ≤ suc (length paused)
unfolding settle answered
length-settle paused key failed draw now = omega arith
length-settle paused key (response status header allowance) draw now =
    let (asked, named) = retry_after header now in
    let first = length-refused paused key asked named draw now in
    elim (Option-cases (exhausted_for allowance now)) [
      | inl e ↦ ground (arith, first, length-delete_le key paused, e)
      | inr (w, e) ↦ ground (arith, first, length-refused paused key w true draw now, e)
    ]

-- The replies of requests that ran side by side, in the order in which they arrive.
unfoldable pub settle_all : Paused → List (String × Reply × ℕ × ℕ) → Paused
settle_all paused [] = paused
settle_all paused ((key, reply, draw, now) ∷ rest) =
    settle_all (settle paused key reply draw now) rest

-- However many upstreams refuse, and in whatever order their replies arrive, the map never holds more
-- pauses than its limit.
pub settle_all-bound :
    (paused : Paused) (replies : List (String × Reply × ℕ × ℕ))
    → length paused ≤ max_paused_upstreams
    → length (settle_all paused replies) ≤ max_paused_upstreams
unfolding settle_all
settle_all-bound paused [] h = h
settle_all-bound paused ((key, reply, draw, now) ∷ rest) h =
    settle_all-bound (settle paused key reply draw now) rest
      (settle-bound paused key reply draw now h)
